-- ===== src/Net/Kcp/Messages.antt =====
-- Messages over a KCP connection with the built-in protocol: kcpMux.onMsg with ParseMsgWarp behind it,
-- as the handler of the read loop.
mod Examples
use gotu.Base.{
  ℕ, suc, ◌+◌, ◌≡◌, refl, sym, ap, ◌∙◌, true, Option, none, List, [], ◌∷◌, ◌++◌, map, concat,
  length, All, Error, arith, drop, pos, subst, false, ◌<◌, zero,
}
use gotu.Wire.{Bytes}
use gotu.Net.Handler.{handled, OnHandlerOnce}
use gotu.Net.Stream.{Reader, read_loop}
use gotu.Net.Stream.Chunks.{loop_view, chunks, payloads}
use gotu.Net.Stream.Frames.{IsPartial, IsFramed, deliver, nothing-IsPartial}
use gotu.Net.Stream.Frames.Arrive.{read_loop-frames}
use gotu.Net.Kcp.ReadLoop.{kcp_read_loop, open_reads, unlogged, kcp_read_loop-open}
use gotu.Net.Kcp.Mux.{established, Mux, mux_pack_msg, Conn, mux_on_msg}
use gotu.Msg.{Header, parse_msg_warp, PackMsgArgs, header_of, pack_msg}
use gotu.Msg.Stream.{no_payload}
use gotu.Msg.RoundTrip.{IsPackable, length-pack_msg, parse_msg_warp-pack_msg, parse_msg_warp-prefix}

-- What the peer's SendMsg makes of a message.
abbrev pub mux_frame : Mux → PackMsgArgs → Bytes
mux_frame peer m = mux_pack_msg peer false (pack_msg m)

abbrev pub IsEstablished {ℓ} : {S : Type ℓ} → Conn S → Type 0
IsEstablished c = (c.mux.is_inline ≡ true) × (c.mux.state ≡ established)

-- The handler is given the message as it was packed, and nothing else of the connection changes.
abbrev pub hand_on {ℓ} :
    {S : Type ℓ}
    → (S → Header → Bytes → S × Option Error)
    → Conn S
    → PackMsgArgs
    → Conn S × Option Error
hand_on fn c m =
    (record c { app = (fn c.app (header_of m) m.payload).0 }, (fn c.app (header_of m) m.payload).1)

pub mux_frame_is :
    (peer : Mux) (m : PackMsgArgs) → peer.is_inline ≡ true → mux_frame peer m ≡ 0 ∷ pack_msg m
unfolding mux_pack_msg
mux_frame_is peer m h = rw h refl

module _ {ℓ} {S : Type ℓ} (fn : S → Header → Bytes → S × Option Error) (spare : Bytes) (peer : Mux)
    (peer_inline : peer.is_inline ≡ true) where
  pub on_frame :
      (c : Conn S) (m : PackMsgArgs) (rest : Bytes)
      → IsEstablished c
      → IsPackable m
      → mux_on_msg (parse_msg_warp fn) spare c (0 ∷ pack_msg m ++ rest)
        ≡ handled (hand_on fn c m).0 (suc (length (pack_msg m))) (hand_on fn c m).1
  unfolding mux_on_msg
  on_frame c m rest (inline, est) v =
      ground (arith, inline, est, parse_msg_warp-pack_msg fn c.app m rest v, length-pack_msg m)

  on_mux_frame :
      (c : Conn S) (m : PackMsgArgs) (rest : Bytes)
      → IsEstablished c
      → IsPackable m
      → mux_on_msg (parse_msg_warp fn) spare c (mux_frame peer m ++ rest)
        ≡ handled (hand_on fn c m).0 (length (mux_frame peer m)) (hand_on fn c m).1
  on_mux_frame c m rest g v =
      subst
        (λ t.
          mux_on_msg (parse_msg_warp fn) spare c (t ++ rest)
          ≡ handled (hand_on fn c m).0 (length t) (hand_on fn c m).1)
        (sym (mux_frame_is peer m peer_inline)) (on_frame c m rest g v)

  on_part :
      (c : Conn S) (b : ℕ) (part : Bytes)
      → IsEstablished c
      → b ≡ 0
      → parse_msg_warp fn c.app part ≡ handled c.app 0 none
      → mux_on_msg (parse_msg_warp fn) spare c (b ∷ part) ≡ handled c 0 none
  unfolding mux_on_msg
  on_part c b part (inline, est) z e = ground (arith, inline, est, e)

  pub mux_waits :
      (c : Conn S) (part rest : Bytes) (m : PackMsgArgs)
      → IsEstablished c
      → IsPackable m
      → part ++ rest ≡ 0 ∷ pack_msg m
      → length part < suc (length (pack_msg m))
      → mux_on_msg (parse_msg_warp fn) spare c part ≡ handled c 0 none
  unfolding mux_on_msg
  mux_waits c [] rest m (inline, est) v e less = ground (arith, inline)
  mux_waits c (b ∷ part) rest m g v e less =
      on_part c b part g (ap (λ t. elim t [ [] ↦ 0 | x ∷ xs ↦ x ]) e)
        (parse_msg_warp-prefix fn c.app m part rest v (ap (drop 1) e) (omega (arith, less)))

  -- Packed messages with the mux byte are frames of onMsg while the mux is established.
  pub mux_on_msg-IsFramed :
      IsFramed
        (mux_on_msg (parse_msg_warp fn) spare)
        (mux_frame peer)
        (hand_on fn)
        IsEstablished
        IsPackable
        (IsPartial (mux_frame peer) IsPackable)
  mux_on_msg-IsFramed = record {
    size = λ m v. subst (λ t. 0 < length t) (sym (mux_frame_is peer m peer_inline)) (omega arith);
    whole = λ c m rest g v e.
        on_mux_frame c m rest g v ∙ ap (handled (hand_on fn c m).0 (length (mux_frame peer m))) e;
    fails = λ c m rest x g v e. (
      length (mux_frame peer m),
      on_mux_frame c m rest g v ∙ ap (handled (hand_on fn c m).0 (length (mux_frame peer m))) e,
    );
    keeps = λ c m g v. g;
    waits = λ c part g p.
        mux_waits c part p.rest p.message g p.fits
          (p.joined ∙ mux_frame_is peer p.message peer_inline)
          (subst (λ t. length part < length t) (mux_frame_is peer p.message peer_inline) p.proper);
  }

  -- The messages of an established connection, with nothing in the cache, its socket not closed, and
  -- over any reads that together give whole ones and a part of one more: onMsg takes the mux byte of
  -- each, the handler is given each once and in order until it returns an error, the part waits, and
  -- the mux stays as it is. The loop is, but for what it logs, that of a TCP socket with onMsg.
  pub mux_messages_arrive :
      (r : Reader (Conn S)) (cs : List (Bytes × Bytes)) (ms : List PackMsgArgs) (part : Bytes)
      → IsEstablished r.state
      → r.read_caches ≡ []
      → All IsPackable ms
      → IsPartial (mux_frame peer) IsPackable part
      → payloads cs ≡ concat (map (mux_frame peer) ms) ++ part
      → let on_msg : OnHandlerOnce (Conn S) = mux_on_msg (parse_msg_warp fn) spare in
        (kcp_read_loop on_msg r (open_reads cs) ≡ unlogged (read_loop on_msg r (chunks cs)))
        × (loop_view (read_loop on_msg r (chunks cs)) ≡ deliver (hand_on fn) part r.state ms)
  mux_messages_arrive r cs ms part g fresh v p same = (
    kcp_read_loop-open (mux_on_msg (parse_msg_warp fn) spare) cs r,
    read_loop-frames mux_on_msg-IsFramed cs r ms part g
        (subst (IsPartial (mux_frame peer) IsPackable) (sym fresh) (
          nothing-IsPartial (mux_frame peer) IsPackable no_payload (omega arith) (
            subst (λ t. 0 < length t) (sym (mux_frame_is peer no_payload peer_inline))
              (omega arith))))
        v p (ap (λ c. c ++ payloads cs) fresh ∙ same),
  )
