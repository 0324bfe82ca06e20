-- ===== src/Registry.antt =====
-- pkg/xregistry: the table of message handlers (genericity.go), the connection's state with its
-- SendMsg (state.go), and the echo handler (handler_echo.go). The state `S` is what the socket keeps;
-- its SendMsg, an interface method, is the parameter `send`. Logging is left out, and with it what
-- SendMsg does on an error beyond returning.
pub mod Echo
mod Examples
use gotu.Base.{
  ℕ, Bool, ◌&&◌, Option, none, some, List, [], ◌∷◌, ℤ, pos, pos_part, neg_part, ◌==◌, if◌then◌else◌,
  Error, no_handler,
}
use gotu.Wire.{Bytes, Result, ok, err, put_int32, get_int32, read_fixed}
use gotu.Msg.{Header, PackMsgArgs, pack_msg}

abbrev pub same_cmd : ℤ → ℤ → Bool
same_cmd a b = (pos_part a == pos_part b) && (neg_part a == neg_part b)

abbrev pub HandleFunc {ℓ} : Type ℓ → Type ℓ
HandleFunc S = S → Bytes → S × Option Error

-- The map `handlers`.
abbrev pub Handlers {ℓ} : Type ℓ → Type ℓ
Handlers S = List (ℤ × HandleFunc S)

abbrev pub handler_of {ℓ} : {S : Type ℓ} → ℤ → Handlers S → Option (HandleFunc S)
handler_of cmd [] = none
handler_of cmd ((c, fn) ∷ handlers) = if same_cmd c cmd then some fn else handler_of cmd handlers

-- `none` is the panic on a command that is there already.
unfoldable pub register {ℓ} : {S : Type ℓ} → ℤ → HandleFunc S → Handlers S → Option (Handlers S)
register cmd fn handlers = elim (handler_of cmd handlers) [
  | some old ↦ none
  | none ↦ some ((cmd, fn) ∷ handlers)
]

unfoldable pub on_msg {ℓ} : {S : Type ℓ} → Handlers S → S → Header → Bytes → S × Option Error
on_msg handlers s header payload = elim (handler_of header.cmd handlers) [
  | some handler ↦ handler s payload
  | none ↦ (s, some (no_handler header.cmd))
]

-- `HandleWarp` with the deserialisation of its request type.
abbrev pub handle_warp {ℓ} :
    {S M : Type ℓ} → (Bytes → Result M) → (S → M → S × Option Error) → HandleFunc S
handle_warp unmarshal fn s msg = elim (unmarshal msg) [ err e ↦ (s, some e) | ok req ↦ fn s req ]

-- EchoReq and EchoResp: a struct with one int32.
unfoldable pub marshal : ℤ → Bytes
marshal num = put_int32 num

unfoldable pub unmarshal : Bytes → Result ℤ
unfolding read_fixed
unmarshal msg = read_fixed 4 get_int32 msg

abbrev pub cmd_echo : ℤ
cmd_echo = pos 1

module _ {S : Type 0} (send : S → Bytes → S × Option Error) where
  -- `State.SendMsg`: an error of the socket is logged and dropped.
  unfoldable pub send_msg : ℤ → ℤ → S → S
  unfolding marshal
  send_msg cmd num s =
      (send s (pack_msg (record { seq = pos 0; cmd = cmd; flag = pos 0; payload = marshal num }))).0

  unfoldable pub echo : S → ℤ → S × Option Error
  unfolding send_msg
  echo s num = (send_msg cmd_echo num s, none)

  -- The table after `init`.
  abbrev pub echo_handlers : Handlers S
  echo_handlers = (cmd_echo, handle_warp unmarshal echo) ∷ []
