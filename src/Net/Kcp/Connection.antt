-- ===== src/Net/Kcp/Connection.antt =====
-- A whole KCP connection at one end, in bytes: the handshake, the messages of the program and the close
-- through kcpMux.onMsg, with ParseMsgWarp behind it, as the handler of the read loop.
pub mod Life
mod Examples
use gotu.Base.{
  ℕ, suc, ◌+◌, ◌≡◌, refl, sym, ap, ◌∙◌, Bool, true, false, Option, none, some, List, [], ◌∷◌, ◌++◌,
  map, concat, length, All, Error, arith, subst, ◌<◌, not_established, eof, if◌then◌else◌,
  Bool-cases, inl, inr, true_ne_false, Option-cases, if_both, ap₂,
}
use gotu.Wire.{Bytes, put_int32}
use gotu.Net.Handler.{handled, OnHandlerOnce}
use gotu.Net.Stream.{Reader, failed, read_loop}
use gotu.Net.Stream.Chunks.{loop_view, chunks}
use gotu.Net.Stream.Frames.{IsFramed, deliver}
use gotu.Net.Stream.Frames.Arrive.{Reads, read_loop-Reads}
use gotu.Net.Kcp.ReadLoop.{kcp_read_loop, open_reads, unlogged, kcp_read_loop-open}
use gotu.Net.Kcp.Mux.{
  Kms, kms_code, syn_sent, listen, syn_rcvd, established, fin_wait1, close_wait, fin_wait2, closing,
  time_wait, last_ack, unknown, Mux, inline_protocol, is_established, mux_pack_msg, put_exchange,
  Conn, mux_on_msg, replied,
}
use gotu.Net.Kcp.Mux.Replies.{IsReply, inline_protocol-IsReply}
use gotu.Net.Kcp.Mux.Frames.{is_known, packed, mux_on_msg-inline}
use gotu.Net.Kcp.Messages.{mux_frame, mux_frame_is, hand_on, on_frame}
use gotu.Msg.{Header, parse_msg_warp, PackMsgArgs, pack_msg}
use gotu.Msg.RoundTrip.{IsPackable}

-- What a peer sends: a message of its program, or a state of the built-in protocol.
pub data Sent : Type 0 where
  logic : PackMsgArgs → Sent
  inline : Kms → Sent

abbrev pub sent_frame : Mux → Sent → Bytes
sent_frame peer (logic m) = mux_frame peer m
sent_frame peer (inline k) = mux_pack_msg peer true (put_exchange k)

abbrev pub IsSendable : Sent → Type 0
IsSendable (logic m) = IsPackable m
IsSendable (inline k) = is_known k ≡ true

-- What this end makes of it, without the bytes.
abbrev pub takes {ℓ} :
    {S : Type ℓ} → (S → Header → Bytes → S × Option Error) → Conn S → Sent → Conn S × Option Error
takes fn c (logic m) =
    if is_established c.mux.state
    then hand_on fn c m
    else (c, some (not_established (kms_code c.mux.state)))
takes fn c (inline k) =
    let r = inline_protocol c.mux k in (record c { mux = r.mux; sent = c.sent ++ r.sends }, r.error)

is_established→eq : (k : Kms) → is_established k ≡ true → k ≡ established
unfolding is_established
is_established→eq established h = refl
is_established→eq _ h = absurd (true_ne_false (sym h))

module _ {ℓ} {S : Type ℓ} (fn : S → Header → Bytes → S × Option Error) (spare : Bytes) (peer : Mux)
    (peer_inline : peer.is_inline ≡ true) where
  abbrev IsOn : Conn S → Type 0
  IsOn c = c.mux.is_inline ≡ true

  frame-size : (x : Sent) → IsSendable x → 0 < length (sent_frame peer x)
  frame-size (logic m) v =
      subst (λ t. 0 < length t) (sym (mux_frame_is peer m peer_inline)) (omega arith)
  frame-size (inline k) v =
      subst (λ t. 0 < length t) (sym (packed peer (put_exchange k) peer_inline)) (omega arith)

  takes-IsOn : (c : Conn S) (x : Sent) → IsOn c → IsOn (takes fn c x).0
  takes-IsOn c (logic m) g =
      if_both (λ (r : Conn S × Option Error). IsOn r.0) (is_established c.mux.state) g g
  takes-IsOn c (inline k) g = (inline_protocol-IsReply k c.mux).same_inline ∙ g

  -- A frame of the protocol.
  on_inline_frame :
      (c : Conn S) (k : Kms) (rest : Bytes)
      → IsOn c
      → is_known k ≡ true
      → mux_on_msg (parse_msg_warp fn) spare c (sent_frame peer (inline k) ++ rest)
        ≡ replied c (inline_protocol c.mux k)
  on_inline_frame c k rest g v =
      ap (λ t. mux_on_msg (parse_msg_warp fn) spare c (t ++ rest))
        (packed peer (put_exchange k) peer_inline ∙ sym (packed c.mux (put_exchange k) g))
      ∙ mux_on_msg-inline (parse_msg_warp fn) spare c k rest g v

  five_bytes : (k : Kms) → length (sent_frame peer (inline k)) ≡ 5
  unfolding put_exchange put_int32
  five_bytes k = ap length (packed peer (put_exchange k) peer_inline)

  on_nothing : (c : Conn S) → IsOn c → mux_on_msg (parse_msg_warp fn) spare c [] ≡ handled c 0 none
  unfolding mux_on_msg
  on_nothing c g = ground (arith, g)

  -- A frame of the program, outside the state established.
  on_early_frame :
      (c : Conn S) (m : PackMsgArgs) (rest : Bytes)
      → IsOn c
      → is_established c.mux.state ≡ false
      → mux_on_msg (parse_msg_warp fn) spare c (0 ∷ pack_msg m ++ rest)
        ≡ handled c 0 (some (not_established (kms_code c.mux.state)))
  unfolding mux_on_msg
  on_early_frame c m rest g e = ground (arith, g, e)

  -- What onMsg makes of a frame, with what follows it: what `takes` says, and with no error the whole
  -- frame is consumed.
  on_logic_frame :
      (c : Conn S) (m : PackMsgArgs) (rest : Bytes)
      → IsOn c
      → IsPackable m
      → (n : ℕ) × (mux_on_msg (parse_msg_warp fn) spare c (0 ∷ pack_msg m ++ rest)
          ≡ handled (takes fn c (logic m)).0 n (takes fn c (logic m)).1)
        × ((takes fn c (logic m)).1 ≡ none → n ≡ suc (length (pack_msg m)))
  on_logic_frame c m rest g v = elim (Bool-cases (is_established c.mux.state)) [
    | inl e ↦ (
      suc (length (pack_msg m)),
      rw e (on_frame fn spare peer peer_inline c m rest (g, is_established→eq c.mux.state e) v),
      λ h. refl,
    )
    | inr e ↦ (
      0,
      rw e (on_early_frame c m rest g e),
      λ h. cc (
          ap
            (λ b.
              (if b then hand_on fn c m else (c, some (not_established (kms_code c.mux.state)))).1)
            (sym e)
          ∙ h),
    )
  ]

  on_sent_frame :
      (c : Conn S) (x : Sent) (rest : Bytes)
      → IsOn c
      → IsSendable x
      → (n : ℕ) × (mux_on_msg (parse_msg_warp fn) spare c (sent_frame peer x ++ rest)
          ≡ handled (takes fn c x).0 n (takes fn c x).1)
        × ((takes fn c x).1 ≡ none → n ≡ length (sent_frame peer x))
  on_sent_frame c (logic m) rest g v =
      let (n, e, whole) = on_logic_frame c m rest g v in
      (
        n,
        ap (λ t. mux_on_msg (parse_msg_warp fn) spare c (t ++ rest))
              (mux_frame_is peer m peer_inline)
            ∙ e,
        λ h. whole h ∙ sym (ap length (mux_frame_is peer m peer_inline)),
      )
  on_sent_frame c (inline k) rest g v = (
    (inline_protocol c.mux k).count,
    on_inline_frame c k rest g v,
    λ h. (inline_protocol-IsReply k c.mux).five h ∙ sym (five_bytes k),
  )

  -- Whatever was sent are frames of onMsg in every state, where no read cuts a frame.
  pub connection-IsFramed :
      IsFramed
        (mux_on_msg (parse_msg_warp fn) spare)
        (sent_frame peer)
        (takes fn)
        IsOn
        IsSendable
        (λ part. part ≡ [])
  connection-IsFramed = record {
    size = frame-size;
    whole = λ c x rest g v e.
        let (n, h, all) = on_sent_frame c x rest g v in
        h ∙ ap₂ (handled (takes fn c x).0) (all e) e;
    fails = λ c x rest e g v k.
        let (n, h, all) = on_sent_frame c x rest g v in (n, h ∙ ap (handled (takes fn c x).0 n) k);
    keeps = λ c x g v. takes-IsOn c x g;
    waits = λ c part g e. ap (mux_on_msg (parse_msg_warp fn) spare c) e ∙ on_nothing c g;
  }

  -- With the built-in protocol on at both ends and reads that end with whole frames of what the peer
  -- sent, in any states of the handshake and the close and with any messages of its program: the loop
  -- of an open socket does what the two protocols say of them, one after another, until the first
  -- error, where io.EOF is the end of the close. It is, but for what it logs, the loop of a TCP socket
  -- with onMsg.
  pub connection_read :
      (r : Reader (Conn S)) (cs : List (Bytes × Bytes)) (xs : List Sent) (left : Bytes)
      → r.state.mux.is_inline ≡ true
      → Reads connection-IsFramed r.read_caches cs xs left
      → let on_msg : OnHandlerOnce (Conn S) = mux_on_msg (parse_msg_warp fn) spare in
        (kcp_read_loop on_msg r (open_reads cs) ≡ unlogged (read_loop on_msg r (chunks cs)))
        × (loop_view (read_loop on_msg r (chunks cs)) ≡ deliver (takes fn) left r.state xs)
  connection_read r cs xs left g reads = (
    kcp_read_loop-open (mux_on_msg (parse_msg_warp fn) spare) cs r,
    read_loop-Reads connection-IsFramed r reads g refl,
  )
