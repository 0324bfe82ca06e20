-- ===== src/Net/Client.antt =====
-- pkg/xnet/tcp_client.go, kcp_client.go, websocket_client.go and the outer half of udp_client.go: a
-- client keeps the pointer to one socket, which Reconnect closes and replaces. What the socket is is a
-- parameter: for UDP it is the builtInUDP of udp_client.go.
pub mod Calls
mod Examples
use gotu.Base.{
  ◌≡◌, Bool, true, false, ◌&&◌, ◌||◌, Option, none, some, List, [], ◌∷◌, Error, sock_closed,
}
use gotu.Wire.{Bytes}

pub data Kind : Type 0 where
  tcp udp kcp websocket : Kind

-- The calls of a socket, and what the clients rely on: a socket that is closed stays so, and refuses
-- a message where its select takes the close (`false`).
pub record SocketOps (T : Type 0) : Type 0 where
  pub close : T → T
  pub send_msg : Bool → Bytes → T → T × Option Error
  pub is_closed : T → Bool
  pub close-is_closed : (t : T) → is_closed (close t) ≡ true
  pub send_msg-is_closed :
      (pick : Bool) (msg : Bytes) (t : T)
      → is_closed t ≡ true
      → is_closed (send_msg pick msg t).0 ≡ true
  pub send_msg-refused :
      (msg : Bytes) (t : T) → is_closed t ≡ true → (send_msg false msg t).1 ≡ some sock_closed

-- What a dial comes to: an error of the address or the dial; a connection for which the socket's
-- constructor fails, as for KCP the handshake does; a socket. The other kinds' constructors do not fail,
-- so that `unmade` is not met there.
pub data Dialled (T : Type 0) : Type 0 where
  failed unmade : Error → Dialled T
  opened : T → Dialled T

-- `none` is the nil pointer.
pub record Client (T : Type 0) : Type 0 where
  pub sock : Option T

-- kcp_client.go stores the socket before it looks at the error, and with an error the socket is nil.
abbrev pub stores_nil : Kind → Bool
stores_nil tcp = false
stores_nil udp = false
stores_nil kcp = true
stores_nil websocket = false

pub data Call (T : Type 0) : Type 0 where
  reconnect_to : Dialled T → Call T
  send : Bool → Bytes → Call T
  close_it : Call T

module _ {T : Type 0} where
  unfoldable pub new_socket : Kind → Client T → Dialled T → Client T × Option Error
  new_socket kind cli (failed e) = (cli, some e)
  new_socket tcp cli (unmade e) = (cli, some e)
  new_socket udp cli (unmade e) = (cli, some e)
  new_socket kcp cli (unmade e) = (record cli { sock = none }, some e)
  new_socket websocket cli (unmade e) = (cli, some e)
  new_socket kind cli (opened t) = (record cli { sock = some t }, none)

  abbrev pub made_client : Client T × Option Error → Option (Client T) × Option Error
  made_client (cli, none) = (some cli, none)
  made_client (cli, some e) = (none, some e)

  unfoldable pub new_client : Kind → Dialled T → Option (Client T) × Option Error
  unfolding new_socket
  new_client kind d = made_client (new_socket kind (record { sock = none }) d)

module _ {T : Type 0} (ops : SocketOps T) where
  -- A call of a method of a nil socket panics: `none`.
  unfoldable pub reconnect : Kind → Client T → Dialled T → Option (Client T × Option Error)
  unfolding new_socket
  reconnect kind cli d = elim cli.sock [
    | none ↦ none
    | some t ↦ some (new_socket kind (record cli { sock = some (ops.close t) }) d)
  ]

  unfoldable pub send_msg : Client T → Bool → Bytes → Option (Client T × Option Error)
  send_msg cli pick msg = elim cli.sock [
    | none ↦ none
    | some t ↦ let (t', err) = ops.send_msg pick msg t in some (record cli { sock = some t' }, err)
  ]

  unfoldable pub close : Client T → Option (Client T × Option Error)
  close cli = elim cli.sock [
    | none ↦ none
    | some t ↦ some (record cli { sock = some (ops.close t) }, none)
  ]

  unfoldable pub call : Kind → Client T → Call T → Option (Client T × Option Error)
  unfolding reconnect send_msg close
  call kind cli (reconnect_to d) = reconnect kind cli d
  call kind cli (send pick msg) = send_msg cli pick msg
  call kind cli close_it = close cli

  abbrev pub after :
      Option Error
      → Option (Client T × List (Option Error))
      → Option (Client T × List (Option Error))
  after err none = none
  after err (some (cli, errs)) = some (cli, err ∷ errs)

  -- The calls of one client in their order, with the error of each.
  unfoldable pub calls : Kind → Client T → List (Call T) → Option (Client T × List (Option Error))
  unfolding call
  calls kind cli [] = some (cli, [])
  calls kind cli (c ∷ cs) = elim (call kind cli c) [
    | none ↦ none
    | some (cli', err) ↦ after err (calls kind cli' cs)
  ]
