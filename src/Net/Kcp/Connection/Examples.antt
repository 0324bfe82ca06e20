-- ===== src/Net/Kcp/Connection/Examples.antt =====
-- A listening end from the handshake to the close, with one message in between.
use gotu.Base.{◌≡◌, refl, Option, none, List, [], ◌∷◌, ◌++◌, pos, Error, eof, arith, true, false}
use gotu.Wire.{Bytes, put_int32}
use gotu.Net.Handler.{OnHandlerOnce}
use gotu.Net.Stream.{Reader, read_loop, failed}
use gotu.Net.Stream.Chunks.{loop_view, chunks}
use gotu.Net.Stream.Frames.{deliver}
use gotu.Net.Stream.Frames.Arrive.{nothing, then_read}
use gotu.Net.Kcp.ReadLoop.{kcp_read_loop, open_reads, unlogged}
use gotu.Net.Kcp.Mux.{
  syn_sent, syn_rcvd, established, fin_wait1, close_wait, last_ack, time_wait, Mux, new_kcp_mux,
  Conn, mux_on_msg, mux_pack_msg, put_exchange, kms_code, inline_protocol, is_established,
}
use gotu.Net.Kcp.Connection.{Sent, logic, inline, sent_frame, takes, connection_read}
use gotu.Net.Kcp.Connection.Life.{finished, listener_lives}
use gotu.Msg.{Header, parse_msg_warp, PackMsgArgs, pack_msg}

abbrev keep : Bytes → Header → Bytes → Bytes × Option Error
keep s h payload = (s ++ payload, none)

abbrev note : PackMsgArgs
note = record { seq = pos 1; cmd = pos 1; flag = pos 0; payload = 5 ∷ [] }

abbrev dialler : Mux
dialler = new_kcp_mux true false

abbrev listening_end : Reader (Conn Bytes)
listening_end = record {
  pool = record { cache = []; returned = [] };
  read_caches = [];
  state = record { mux = new_kcp_mux true true; app = []; sent = [] };
}

abbrev sent_by_dialler : List Sent
sent_by_dialler =
    inline syn_sent ∷ inline established ∷ logic note ∷ inline fin_wait1 ∷ inline time_wait ∷ []

-- The second read brings the end of the handshake together with the message.
abbrev two_reads : List (Bytes × Bytes)
two_reads =
    ([], sent_frame dialler (inline syn_sent))
    ∷ (
      [],
      sent_frame dialler (inline established)
          ++ sent_frame dialler (logic note)
          ++ sent_frame dialler (inline fin_wait1)
          ++ sent_frame dialler (inline time_wait),
    )
    ∷ []

abbrev on_msg : OnHandlerOnce (Conn Bytes)
on_msg = mux_on_msg (parse_msg_warp keep) []

connection_read_example :
    (kcp_read_loop on_msg listening_end (open_reads two_reads)
      ≡ unlogged (read_loop on_msg listening_end (chunks two_reads)))
    × (loop_view (read_loop on_msg listening_end (chunks two_reads))
        ≡ deliver (takes keep) [] listening_end.state sent_by_dialler)
unfolding new_kcp_mux mux_pack_msg put_exchange kms_code put_int32 pack_msg
connection_read_example =
    connection_read keep [] dialler refl listening_end two_reads sent_by_dialler [] refl (
      then_read [] [] _ [] [] _ (inline syn_sent ∷ []) _ (refl, tt) refl refl
        (then_read [] [] _ [] [] []
          (inline established ∷ logic note ∷ inline fin_wait1 ∷ inline time_wait ∷ []) []
          (refl, (omega arith, (refl, (refl, tt)))) refl refl (nothing [])))

listener_lives_example :
    (kcp_read_loop on_msg listening_end (open_reads two_reads)
      ≡ unlogged (read_loop on_msg listening_end (chunks two_reads)))
    × (loop_view (read_loop on_msg listening_end (chunks two_reads))
        ≡ failed (finished keep (5 ∷ []), []) eof)
unfolding new_kcp_mux mux_pack_msg put_exchange kms_code put_int32 pack_msg
listener_lives_example =
    listener_lives keep [] dialler refl listening_end [] two_reads (note ∷ []) (λ t m. refl) refl
      (then_read [] [] _ [] [] _ (inline syn_sent ∷ []) _ (refl, tt) refl refl
        (then_read [] [] _ [] [] []
          (inline established ∷ logic note ∷ inline fin_wait1 ∷ inline time_wait ∷ []) []
          (refl, (omega arith, (refl, (refl, tt)))) refl refl (nothing [])))

-- It answers the handshake and the close, gives the message to the program, and ends by io.EOF.
life_of_listener :
    deliver (takes keep) [] listening_end.state sent_by_dialler
    ≡ failed
        (
          record {
            mux = record (new_kcp_mux true true) { state = last_ack; close_ch = 1; init_ch = 1 };
            app = 5 ∷ [];
            sent = syn_rcvd ∷ close_wait ∷ last_ack ∷ [];
          },
          [],
        )
        eof
unfolding deliver inline_protocol is_established new_kcp_mux
life_of_listener = refl
