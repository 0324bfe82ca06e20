-- ===== src/Net/Udp/Client.antt =====
-- The builtInUDP of pkg/xnet/udp_client.go: one socket and one session, which `forceClose` closes in
-- this order, once. It waits for the session's handler loop in between, while datagrams, sends, turns of
-- that loop and rounds of the check loop go on. The outer UDPClient is in Net/Client.antt.
pub mod Close
pub mod Ops
mod Examples
use gotu.Base.{ℕ, ◌*◌, Bool, true, false, Option, none, some, List, [], ◌∷◌, if◌then◌else◌, Error}
use gotu.Wire.{Bytes}
use gotu.Net.Handler.{OnHandlerOnce, write_chan_limit}
use gotu.Net.Write
use gotu.Net.Write.{Channel}
use gotu.Net.Session.{Session, new_session, recv_msg, on_event, turn, shut, expires}

abbrev pub udp_chan_limit : ℕ
udp_chan_limit = write_chan_limit * 10

-- Where `closeOnce` stands: not called; in `session.Close`; past its end.
pub data Once : Type 0 where
  unfired in_session fired : Once

-- `sock` is the socket's channel of datagrams, all for the one peer.
pub record BuiltInUdp (S : Type 0) : Type 0 where
  pub session : Session S
  pub sock : Channel Bytes
  pub once : Once

-- A datagram; a turn of the handler loop; a round of the check loop; a call of forceClose; its steps
-- behind `session.Close`, where the handler loop is over; sendMsg; the end of the socket's read loop.
pub data Event : Type 0 where
  datagram : Bool → Bytes → ℕ → Event
  handle : Bool → Event
  check : ℕ → ℕ → Event
  force finish : Event
  send : Bool → Bytes → Event
  read_end : Event

-- The socket's read loop runs before the session is stored: where a datagram is `early`, udpOnMsg calls
-- recvMsg on a nil session, and panics.
unfoldable pub new_built_in_udp : {S : Type 0} → Bool → S → ℕ → Option (BuiltInUdp S)
new_built_in_udp early state now =
    if early
    then none
    else some (record {
      session = new_session state now;
      sock = record { queue = []; closed = false };
      once = unfired;
    })

module _ {S : Type 0} (on_msg : OnHandlerOnce S) where
  unfoldable pub force_close : BuiltInUdp S → Once → BuiltInUdp S
  force_close b unfired = record b { session = on_event on_msg b.session shut; once = in_session }
  force_close b in_session = b
  force_close b fired = b

  abbrev pub shut_sock : BuiltInUdp S → BuiltInUdp S
  shut_sock b = record b { sock = record b.sock { closed = true } }

  unfoldable pub finish_close : BuiltInUdp S → Once → BuiltInUdp S
  finish_close b unfired = b
  finish_close b in_session = if b.session.running then b else record (shut_sock b) { once = fired }
  finish_close b fired = b

  unfoldable pub send_msg : BuiltInUdp S → Bool → Bytes → BuiltInUdp S × Option Error
  send_msg b pick msg =
      let (sock, err) = Write.send_msg udp_chan_limit pick msg b.sock in
      (record b { sock = sock }, err)

  unfoldable pub react : BuiltInUdp S → Event → BuiltInUdp S
  unfolding force_close finish_close send_msg
  react b (datagram pick msg now) = record b { session = recv_msg pick msg now b.session }
  react b (handle prefer) = record b { session = on_event on_msg b.session (turn prefer) }
  react b (check timeout now) = if expires timeout now b.session then force_close b b.once else b
  react b force = force_close b b.once
  react b finish = finish_close b b.once
  react b (send pick msg) = (send_msg b pick msg).0
  react b read_end = shut_sock b

  unfoldable pub reacts : BuiltInUdp S → List Event → BuiltInUdp S
  unfolding react
  reacts b [] = b
  reacts b (e ∷ events) = reacts (react b e) events

  -- `close`: forceClose, the turns of the handler loop in its wait, the last of which takes the close,
  -- and the rest of forceClose.
  unfoldable pub turns : BuiltInUdp S → List Bool → BuiltInUdp S
  unfolding react
  turns b [] = react b (handle true)
  turns b (prefer ∷ prefers) = turns (react b (handle prefer)) prefers

  unfoldable pub close : List Bool → BuiltInUdp S → BuiltInUdp S
  unfolding react turns
  close prefers b = react (turns (react b force) prefers) finish
