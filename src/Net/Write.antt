-- ===== src/Net/Write.antt =====
-- The write side that the sockets of pkg/xnet share: a buffered channel of messages with a close
-- channel beside it, and the `select` of SendMsg (tcp_socket.go, kcp_socket.go, udp_socket.go,
-- websocket.go).
pub mod Cases
pub mod Coalesce
pub mod Each
mod Examples
use gotu.Base.{
  ℕ, Bool, true, false, ◌&&◌, ◌||◌, not, Option, none, some, List, [], ◌∷◌, ◌++◌, ltb, length,
  if◌then◌else◌, Error, sock_closed, msg_overflow,
}

pub record Channel {ℓ} (M : Type ℓ) : Type ℓ where
  pub queue : List M
  pub closed : Bool

-- Whether the send is chosen: there is room, and where the socket is closed as well Go picks one of
-- the two ready cases, which `pick` stands for.
abbrev pub accepts {ℓ} : {M : Type ℓ} → ℕ → Bool → Channel M → Bool
accepts limit pick c = ltb (length c.queue) limit && (pick || not c.closed)

unfoldable pub send_msg {ℓ} : {M : Type ℓ} → ℕ → Bool → M → Channel M → Channel M × Option Error
send_msg limit pick m c =
    if accepts limit pick c
    then (record c { queue = c.queue ++ (m ∷ []) }, none)
    else if c.closed
    then (c, some sock_closed)
    else (c, some msg_overflow)
