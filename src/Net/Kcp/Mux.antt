-- ===== src/Net/Kcp/Mux.antt =====
-- pkg/xnet/kcp_mux.go: the mux of a KCP socket. A method returns the new mux with the inline messages
-- that it gives to `sock.send`, in order. The sends to `initCh` and `closeCh` are counted.
pub mod Frames
pub mod Replies
use gotu.Base.{
  ℕ, zero, suc, ◌+◌, Bool, true, false, not, Option, none, some, List, [], ◌∷◌, ◌++◌, ℤ, pos,
  negsuc, ltb, ◌==◌, if◌then◌else◌, length, take, drop, Error, eof, not_established, inline_invalid,
}
use gotu.Wire.{Bytes, Result, ok, err, put_int32, get_int32, read_fixed, slice}
use gotu.Net.Handler.{Handled, handled, panicked, OnHandlerOnce}

-- The values of the int32 `state`; `unknown` is any other, as the wire may bring one.
pub data Kms : Type 0 where
  syn_sent listen syn_rcvd established fin_wait1 close_wait fin_wait2 closing time_wait : Kms
  last_ack : Kms
  unknown : ℤ → Kms

unfoldable pub kms_code : Kms → ℤ
kms_code syn_sent = negsuc 1
kms_code listen = negsuc 0
kms_code syn_rcvd = pos 0
kms_code established = pos 1
kms_code fin_wait1 = pos 2
kms_code close_wait = pos 3
kms_code fin_wait2 = pos 4
kms_code closing = pos 5
kms_code time_wait = pos 6
kms_code last_ack = pos 7
kms_code (unknown z) = z

unfoldable pub kms_of : ℤ → Kms
kms_of (negsuc zero) = listen
kms_of (negsuc (suc zero)) = syn_sent
kms_of (pos zero) = syn_rcvd
kms_of (pos (suc zero)) = established
kms_of (pos (suc (suc zero))) = fin_wait1
kms_of (pos (suc (suc (suc zero)))) = close_wait
kms_of (pos (suc (suc (suc (suc zero))))) = fin_wait2
kms_of (pos (suc (suc (suc (suc (suc zero)))))) = closing
kms_of (pos (suc (suc (suc (suc (suc (suc zero))))))) = time_wait
kms_of (pos (suc (suc (suc (suc (suc (suc (suc zero)))))))) = last_ack
kms_of z = unknown z

-- `kcpMuxHeader` is one bool, `kcpExchange` one int32.
abbrev pub kcp_mux_header_sizeof : ℕ
kcp_mux_header_sizeof = 1

abbrev pub kcp_exchange_sizeof : ℕ
kcp_exchange_sizeof = 4

pub record Mux : Type 0 where
  pub is_inline : Bool
  pub init_flag : Bool
  pub close_once : Bool
  pub state : Kms
  pub is_listen : Bool
  pub close_ch : ℕ
  pub init_ch : ℕ

unfoldable pub new_kcp_mux : Bool → Bool → Mux
new_kcp_mux is_inline is_listen = record {
  is_inline = is_inline;
  init_flag = false;
  close_once = false;
  state = if is_listen then listen else syn_sent;
  is_listen = is_listen;
  close_ch = 0;
  init_ch = 0;
}

-- What a message handler of the mux leaves: the mux, the inline messages it sent, the bytes consumed
-- and the error.
pub record Reply : Type 0 where
  pub mux : Mux
  pub sends : List Kms
  pub count : ℕ
  pub error : Option Error

abbrev exchange_size : ℕ
exchange_size = kcp_mux_header_sizeof + kcp_exchange_sizeof

abbrev goes : Mux → Kms → List Kms → Reply
goes m state sends = record {
  mux = record m { state = state };
  sends = sends;
  count = exchange_size;
  error = none;
}

abbrev opens : Mux → List Kms → Reply
opens m sends = record {
  mux = record m { state = established; init_ch = m.init_ch + 1 };
  sends = sends;
  count = exchange_size;
  error = none;
}

abbrev closes : Mux → Kms → List Kms → Reply
closes m state sends = record {
  mux = record m { state = state; close_ch = m.close_ch + 1 };
  sends = sends;
  count = exchange_size;
  error = some eof;
}

-- `inlineProtocol` by the message's state and the mux's own. No two of its tests hold together, so
-- the order in which they stand does not matter. On `fin_wait1` in `established` the two swaps of the
-- branch follow one another: no other goroutine moves the mux from `close_wait`.
dispatch : Kms → Kms → Mux → Reply
dispatch syn_sent listen m = goes m syn_rcvd (syn_rcvd ∷ [])
dispatch syn_rcvd syn_sent m = opens m (established ∷ [])
dispatch established syn_rcvd m = opens m []
dispatch fin_wait1 established m = goes m last_ack (close_wait ∷ last_ack ∷ [])
dispatch time_wait last_ack m = closes m last_ack []
dispatch close_wait fin_wait1 m = goes m fin_wait2 []
dispatch last_ack fin_wait2 m = closes m time_wait (time_wait ∷ [])
dispatch fin_wait1 fin_wait1 m = goes m closing (closing ∷ [])
dispatch closing closing m = goes m time_wait (time_wait ∷ [])
dispatch time_wait time_wait m = closes m time_wait []
dispatch ke cur m = record {
  mux = m;
  sends = [];
  count = 0;
  error = some (inline_invalid (kms_code ke) (kms_code cur));
}

unfoldable pub inline_protocol : Mux → Kms → Reply
unfolding dispatch
inline_protocol m ke = dispatch ke m.state m

-- `init` up to its wait: the first call alone acts, and only the dialling side sends.
is_syn_sent : Kms → Bool
is_syn_sent syn_sent = true
is_syn_sent _ = false

unfoldable pub init_begin : Mux → Mux × List Kms
unfolding is_syn_sent
init_begin m = if m.init_flag then (m, []) else (
  record m { init_flag = true },
  if not m.is_inline then [] else if is_syn_sent m.state then syn_sent ∷ [] else [],
)

-- `close` up to its wait: `closeOnce`, then the swap from `established`.
unfoldable pub is_established : Kms → Bool
is_established established = true
is_established _ = false

unfoldable pub close_begin : Mux → Mux × List Kms
unfolding is_established
close_begin m =
    if m.close_once
    then (m, [])
    else if not m.is_inline
    then (record m { close_once = true }, [])
    else if is_established m.state
    then (record m { close_once = true; state = fin_wait1 }, fin_wait1 ∷ [])
    else (record m { close_once = true }, [])

-- `packMsg`: one byte, 1 for an inline message, in front of the payload.
unfoldable pub mux_pack_msg : Mux → Bool → Bytes → Bytes
mux_pack_msg m inline payload =
    if not m.is_inline then payload else (if inline then 1 else 0) ∷ payload

-- The bytes that `sendInline` hands to `sock.send`, which packs them.
unfoldable pub put_exchange : Kms → Bytes
put_exchange k = put_int32 (kms_code k)

unfoldable pub get_exchange : Bytes → Kms
get_exchange bs = kms_of (get_int32 bs)

-- The mux, the application's state, and the inline messages sent so far.
pub record Conn {ℓ} (S : Type ℓ) : Type ℓ where
  pub mux : Mux
  pub app : S
  pub sent : List Kms

abbrev pub replied {ℓ} : {S : Type ℓ} → Conn S → Reply → Handled (Conn S)
replied c r = handled (record c { mux = r.mux; sent = c.sent ++ r.sends }) r.count r.error

-- A message of the logic layer.
on_logic {ℓ} : {S : Type ℓ} → OnHandlerOnce S → Conn S → Bytes → Handled (Conn S)
unfolding is_established
on_logic handler c msg =
    if is_established c.mux.state
    then elim (handler c.app (drop kcp_mux_header_sizeof msg)) [
      | panicked ↦ panicked
      | handled s n e ↦
          handled (record c { app = s }) (if n == 0 then 0 else n + kcp_mux_header_sizeof) e
    ]
    else handled c 0 (some (not_established (kms_code c.mux.state)))

-- An inline message: `msg[1:5]` is cut without a look at the length of `msg`, so it reaches into
-- `spare`, the bytes of the cache's array behind `msg`.
on_inline {ℓ} : {S : Type ℓ} → Bytes → Conn S → Bytes → Handled (Conn S)
unfolding read_fixed
on_inline spare c msg = elim (slice (msg ++ spare) kcp_mux_header_sizeof (pos exchange_size)) [
  | none ↦ panicked
  | some bs ↦ elim (read_fixed kcp_exchange_sizeof get_exchange bs) [
    | err e ↦ handled c 0 (some e)
    | ok ke ↦ replied c (inline_protocol c.mux ke)
  ]
]

-- `onMsg`. Go reads a bool from a byte as `b != 0`.
unfoldable pub mux_on_msg {ℓ} : {S : Type ℓ} → OnHandlerOnce S → Bytes → OnHandlerOnce (Conn S)
unfolding on_logic on_inline
mux_on_msg handler spare c msg =
    if not c.mux.is_inline
    then elim (handler c.app msg) [
      | panicked ↦ panicked
      | handled s n e ↦ handled (record c { app = s }) n e
    ]
    else elim msg [
      | [] ↦ handled c 0 none
      | b ∷ rest ↦ if b == 0 then on_logic handler c (b ∷ rest) else on_inline spare c (b ∷ rest)
    ]
