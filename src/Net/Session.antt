-- ===== src/Net/Session.antt =====
-- pkg/xnet/udp_session.go: the messages of one peer of a UDP server, and the test by which
-- udp_server.go lets a session expire. Times are seconds since 1970. Arrivals, the close and the turns
-- of the handler loop come in any order.
pub mod Order
pub mod Failed
pub mod Shut
pub mod Calm
mod Examples
use gotu.Base.{
  ℕ, ◌+◌, Bool, true, false, Option, none, some, List, [], ◌∷◌, ◌++◌, ltb, if◌then◌else◌, Error,
}
use gotu.Wire.{Bytes}
use gotu.Net.Handler.{Handled, handled, panicked, OnHandlerOnce}
use gotu.Net.Write.{Channel, send_msg}

abbrev pub udp_msg_chan_limit : ℕ
udp_msg_chan_limit = 1024

-- `running` is false once the handler loop is over, `crashed` true once a panic of the callback has
-- ended the process, and `expired` true once a round of the server's checkLoop has listed it. `state` is what onConnect returned, as the
-- callback has changed it; `delivered` and `accepted` are a record of the past: the messages given to
-- the callback, and those for which recvMsg returned nil.
pub record Session {ℓ} (S : Type ℓ) : Type ℓ where
  pub state : S
  pub active_at : ℕ
  pub msg_ch : Channel Bytes
  pub running : Bool
  pub crashed : Bool
  pub expired : Bool
  pub delivered : List Bytes
  pub accepted : List Bytes

abbrev pub new_session {ℓ} : {S : Type ℓ} → S → ℕ → Session S
new_session state now = record {
  state = state;
  active_at = now;
  msg_ch = record { queue = []; closed = false };
  running = true;
  crashed = false;
  expired = false;
  delivered = [];
  accepted = [];
}

-- The arrival of a message with the choice of its select and the time; one select of the loop, which
-- prefers the close where both cases are ready and the flag says so; and `forceClose`.
pub data Event : Type 0 where
  arrive : Bool → Bytes → ℕ → Event
  turn : Bool → Event
  shut : Event

module _ {ℓ} {S : Type ℓ} where
  abbrev pub received : Session S → Bytes → ℕ → Channel Bytes × Option Error → Session S
  received s msg now (c, none) = record s {
    msg_ch = c;
    active_at = now;
    accepted = s.accepted ++ (msg ∷ []);
  }
  received s msg now (c, some e) = s

  unfoldable pub recv_msg : Bool → Bytes → ℕ → Session S → Session S
  recv_msg pick msg now s = received s msg now (send_msg udp_msg_chan_limit pick msg s.msg_ch)

  -- The callback's answer: an error ends the loop, and a panic, which wg.Done raises again, the
  -- process: what is said of a session that has crashed is void.
  abbrev pub answered : Session S → Handled S → Session S
  answered s (handled state n none) = record s { state = state }
  answered s (handled state n (some e)) = record s { state = state; running = false }
  answered s panicked = record s { running = false; crashed = true }

  abbrev pub deliver : OnHandlerOnce S → Session S → Bytes → List Bytes → Session S
  deliver on_msg s msg queue =
      answered
        (record s {
          msg_ch = record s.msg_ch { queue = queue };
          delivered = s.delivered ++ (msg ∷ []);
        })
        (on_msg s.state msg)

  handler_turn : OnHandlerOnce S → Bool → Session S → List Bytes → Session S
  handler_turn on_msg prefer s [] = if s.msg_ch.closed then record s { running = false } else s
  handler_turn on_msg true s (msg ∷ queue) =
      if s.msg_ch.closed then record s { running = false } else deliver on_msg s msg queue
  handler_turn on_msg false s (msg ∷ queue) = deliver on_msg s msg queue

  unfoldable pub on_event : OnHandlerOnce S → Session S → Event → Session S
  unfolding recv_msg handler_turn
  on_event on_msg s (arrive pick msg now) = recv_msg pick msg now s
  on_event on_msg s (turn prefer) =
      if s.running then handler_turn on_msg prefer s s.msg_ch.queue else s
  on_event on_msg s shut = record s { msg_ch = record s.msg_ch { closed = true } }

  unfoldable pub on_events : OnHandlerOnce S → Session S → List Event → Session S
  unfolding on_event
  on_events on_msg s [] = s
  on_events on_msg s (e ∷ events) = on_events on_msg (on_event on_msg s e) events

  -- `checkLoop`: activeAt < now - timeout.
  abbrev pub expires : ℕ → ℕ → Session S → Bool
  expires timeout now s = ltb (s.active_at + timeout) now
