-- ===== src/Net/Kcp/Connection/Life.antt =====
-- The listening end of a KCP connection from its first byte to its last.
use gotu.Base.{◌≡◌, refl, ap, ◌∙◌, true, Option, none, List, [], ◌∷◌, ◌++◌, map, Error, eof}
use gotu.Wire.{Bytes}
use gotu.Net.Stream.{Reader, failed, read_loop}
use gotu.Net.Stream.Chunks.{loop_view, chunks}
use gotu.Net.Stream.Frames.{deliver, deliver-next}
use gotu.Net.Stream.Frames.Arrive.{Reads}
use gotu.Net.Handler.{OnHandlerOnce}
use gotu.Net.Kcp.ReadLoop.{kcp_read_loop, open_reads, unlogged}
use gotu.Net.Kcp.Mux.{
  syn_sent, syn_rcvd, established, fin_wait1, close_wait, time_wait, last_ack, Mux, new_kcp_mux,
  inline_protocol, is_established, Conn, mux_on_msg,
}
use gotu.Net.Kcp.Connection.{Sent, logic, inline, takes, connection-IsFramed, connection_read}
use gotu.Msg.{Header, parse_msg_warp, PackMsgArgs, header_of}

-- What a dialling end sends that opens the connection, sends messages and closes it.
abbrev pub dialled : List PackMsgArgs → List Sent
dialled ms =
    inline syn_sent
    ∷ inline established
    ∷ (map logic ms ++ (inline fin_wait1 ∷ inline time_wait ∷ []))

module _ {ℓ} {S : Type ℓ} (fn : S → Header → Bytes → S × Option Error) where
  -- The program's state after these messages.
  abbrev pub handled_all : S → List PackMsgArgs → S
  handled_all s [] = s
  handled_all s (m ∷ ms) = handled_all (fn s (header_of m) m.payload).0 ms

  abbrev pub listening : S → Conn S
  listening s = record { mux = new_kcp_mux true true; app = s; sent = [] }

  abbrev standing : S → Conn S
  standing s = record {
    mux = record (new_kcp_mux true true) { state = established; init_ch = 1 };
    app = s;
    sent = syn_rcvd ∷ [];
  }

  -- The end of the connection: the close is answered, and `closeCh` is told.
  abbrev pub finished : S → Conn S
  finished s = record {
    mux = record (new_kcp_mux true true) { state = last_ack; close_ch = 1; init_ch = 1 };
    app = s;
    sent = syn_rcvd ∷ close_wait ∷ last_ack ∷ [];
  }

  deliver-logic :
      (ms : List PackMsgArgs) (s : S) (xs : List Sent)
      → ((t : S) (m : PackMsgArgs) → (fn t (header_of m) m.payload).1 ≡ none)
      → deliver (takes fn) [] (standing s) (map logic ms ++ xs)
        ≡ deliver (takes fn) [] (standing (handled_all s ms)) xs
  unfolding is_established new_kcp_mux
  deliver-logic [] s xs h = refl
  deliver-logic (m ∷ ms) s xs h =
      deliver-next (takes fn) [] (standing s) (standing (fn s (header_of m) m.payload).0) (logic m)
        (map logic ms ++ xs) (ap (λ e. (standing (fn s (header_of m) m.payload).0, e)) (h s m))
      ∙ deliver-logic ms (fn s (header_of m) m.payload).0 xs h

  deliver-dialled :
      (ms : List PackMsgArgs) (s : S)
      → ((t : S) (m : PackMsgArgs) → (fn t (header_of m) m.payload).1 ≡ none)
      → deliver (takes fn) [] (listening s) (dialled ms)
        ≡ failed (finished (handled_all s ms), []) eof
  unfolding deliver inline_protocol is_established new_kcp_mux
  deliver-dialled ms s h = deliver-logic ms s (inline fin_wait1 ∷ inline time_wait ∷ []) h

  -- A new connection of a KCP server whose peer opens it, sends messages and closes it, with reads that
  -- end with whole frames: the mux answers the handshake and the close, the program is given every
  -- message once and in order, and then the loop ends by io.EOF, without a log. The program's handler
  -- returns no error.
  pub listener_lives :
      (spare : Bytes) (peer : Mux) (on : peer.is_inline ≡ true) (r : Reader (Conn S)) (s : S)
      (cs : List (Bytes × Bytes)) (ms : List PackMsgArgs)
      → ((t : S) (m : PackMsgArgs) → (fn t (header_of m) m.payload).1 ≡ none)
      → r.state ≡ listening s
      → Reads (connection-IsFramed fn spare peer on) r.read_caches cs (dialled ms) []
      → let on_msg : OnHandlerOnce (Conn S) = mux_on_msg (parse_msg_warp fn) spare in
        (kcp_read_loop on_msg r (open_reads cs) ≡ unlogged (read_loop on_msg r (chunks cs)))
        × (loop_view (read_loop on_msg r (chunks cs))
            ≡ failed (finished (handled_all s ms), []) eof)
  unfolding new_kcp_mux
  listener_lives spare peer on r s cs ms h start reads =
      let (same, done) =
        connection_read fn spare peer on r cs (dialled ms) [] (ap (λ c. c.mux.is_inline) start)
          reads in
      (same, done ∙ ap (λ c. deliver (takes fn) [] c (dialled ms)) start ∙ deliver-dialled ms s h)
