-- ===== src/Net/Udp.antt =====
-- pkg/xnet/udp_server.go: the sessions of a UDP server by the text of their peer's address. The
-- callbacks are `connect`, the onConnect for an address, and `on_msg`. A datagram's handling is one
-- event, since the read loop alone adds sessions; of a round of the check loop the list of what has
-- expired, each close and each delete are events, and so is a turn of a session's handler loop.
pub mod Entries
pub mod Peers
pub mod Late
pub mod ReadLoop
pub mod Client
mod Examples
use gotu.Base.{
  ℕ, Bool, true, false, not, ◌&&◌, ◌||◌, Option, none, some, List, [], ◌∷◌, map, if◌then◌else◌,
}
use gotu.Wire.{Bytes}
use gotu.Net.Handler.{OnHandlerOnce}
use gotu.Net.Write.{Channel}
use gotu.Net.Session.{Session, new_session, recv_msg, on_event, turn, shut, expires}
use Prim.Native.String.{String}
use text.Mathlib.Text.{◌==◌}

-- `sock` is whether `svr.sock` has been stored: the socket's read loop runs before that.
pub record UdpServer (S : Type 0) : Type 0 where
  pub sock : Bool
  pub sessions : List (String × Session S)

pub data Event : Type 0 where
  datagram : String → Bool → Bytes → ℕ → Event
  check : ℕ → ℕ → Event
  handler_turn : String → Bool → Event
  shut_expired delete_expired : String → Event

module _ {S : Type 0} where
  unfoldable pub get_session : String → List (String × Session S) → Option (Session S)
  get_session id [] = none
  get_session id ((k, s) ∷ sessions) = if k == id then some s else get_session id sessions

  unfoldable pub add_session :
      String → Session S → List (String × Session S) → List (String × Session S)
  add_session id s [] = (id, s) ∷ []
  add_session id s ((k, t) ∷ sessions) =
      if k == id then (k, s) ∷ sessions else (k, t) ∷ add_session id s sessions

  unfoldable pub del_session : String → List (String × Session S) → List (String × Session S)
  del_session id [] = []
  del_session id ((k, s) ∷ sessions) =
      if k == id then del_session id sessions else (k, s) ∷ del_session id sessions

  -- The list that a round of `checkLoop` makes under the lock.
  abbrev pub checked : ℕ → ℕ → Session S → Session S
  checked timeout now s = record s { expired = s.expired || expires timeout now s }

  unfoldable pub check_sessions : ℕ → ℕ → List (String × Session S) → List (String × Session S)
  check_sessions timeout now [] = []
  check_sessions timeout now ((k, s) ∷ sessions) =
      (k, checked timeout now s) ∷ check_sessions timeout now sessions

  -- `session.Close` of a listed session has waited for its handler loop.
  abbrev pub is_left : Session S → Bool
  is_left s = s.expired && (s.msg_ch.closed && not s.running)

module _ {S : Type 0} (connect : String → S) (on_msg : OnHandlerOnce S) where
  -- What `udpOnMsg` does with the session that it found.
  abbrev pub received :
      UdpServer S → String → Bool → Bytes → ℕ → Option (Session S) → Option (UdpServer S)
  received svr id pick msg now (some s) =
      some (record svr { sessions = add_session id (recv_msg pick msg now s) svr.sessions })
  received svr id pick msg now none =
      if svr.sock
      then some (record svr {
        sessions =
            add_session id (recv_msg pick msg now (new_session (connect id) now)) svr.sessions;
      })
      else none

  -- `none` is the panic of `svr.sock.Load().(*UDPSocket)`.
  unfoldable pub udp_on_msg : UdpServer S → String → Bool → Bytes → ℕ → Option (UdpServer S)
  udp_on_msg svr id pick msg now = received svr id pick msg now (get_session id svr.sessions)

  abbrev pub set : UdpServer S → String → Session S → UdpServer S
  set svr id s = record svr { sessions = add_session id s svr.sessions }

  -- A turn of the handler loop of the session of `id`, if there is one: `none` where the callback
  -- panics, which ends the process.
  abbrev pub turned : UdpServer S → String → Bool → Option (Session S) → Option (UdpServer S)
  turned svr id prefer none = some svr
  turned svr id prefer (some s) =
      let s' = on_event on_msg s (turn prefer) in if s'.crashed then none else some (set svr id s')

  -- `session.Close` up to its wait, and `delSession` behind it.
  abbrev pub shut_one : UdpServer S → String → Option (Session S) → UdpServer S
  shut_one svr id none = svr
  shut_one svr id (some s) = set svr id (if s.expired then on_event on_msg s shut else s)

  abbrev pub delete_one : UdpServer S → String → Option (Session S) → UdpServer S
  delete_one svr id none = svr
  delete_one svr id (some s) =
      if is_left s then record svr { sessions = del_session id svr.sessions } else svr

  unfoldable pub serve_one : UdpServer S → Event → Option (UdpServer S)
  unfolding udp_on_msg
  serve_one svr (datagram id pick msg now) = udp_on_msg svr id pick msg now
  serve_one svr (check timeout now) =
      some (record svr { sessions = check_sessions timeout now svr.sessions })
  serve_one svr (handler_turn id prefer) = turned svr id prefer (get_session id svr.sessions)
  serve_one svr (shut_expired id) = some (shut_one svr id (get_session id svr.sessions))
  serve_one svr (delete_expired id) = some (delete_one svr id (get_session id svr.sessions))

  unfoldable pub serve : UdpServer S → List Event → Option (UdpServer S)
  unfolding serve_one
  serve svr [] = some svr
  serve svr (e ∷ events) = elim (serve_one svr e) [ none ↦ none | some svr' ↦ serve svr' events ]

-- `session.Close`: closeCh is closed, and the handler loop is waited for.
unfoldable pub close_session : {S : Type 0} → Session S → Session S
close_session s = record s { msg_ch = record s.msg_ch { closed = true }; running = false }

-- The loop of `Close` over the sessions.
unfoldable pub close_sessions : {S : Type 0} → List (String × Session S) → List (String × Session S)
unfolding close_session
close_sessions [] = []
close_sessions ((k, s) ∷ sessions) = (k, close_session s) ∷ close_sessions sessions

-- `Close`: the loop over the sessions, and what the socket's read loop and the check loop still do until
-- the socket and closeCh are closed, behind the loop.
unfoldable pub close_server :
    {S : Type 0} → (String → S) → OnHandlerOnce S → UdpServer S → List Event → Option (UdpServer S)
unfolding serve close_sessions
close_server connect on_msg svr events =
    serve connect on_msg (record svr { sessions = close_sessions svr.sessions }) events
