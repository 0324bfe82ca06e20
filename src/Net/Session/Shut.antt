-- ===== src/Net/Session/Shut.antt =====
-- A session (udp_session.go) whose close channel is closed.
use gotu.Base.{
  ◌≡◌, refl, sym, ap, subst, Bool, true, false, none, some, List, [], ◌∷◌, inl, inr, if_both,
  if_either, if◌then◌else◌,
}
use gotu.Wire.{Bytes}
use gotu.Net.Handler.{Handled, handled, panicked, OnHandlerOnce}
use gotu.Net.Write.Cases.{send_msg-cases}
use gotu.Net.Session.{
  Session, Event, arrive, turn, shut, received, recv_msg, answered, deliver, handler_turn, on_event,
  udp_msg_chan_limit,
}

module _ {S : Type 0} (on_msg : OnHandlerOnce S) where
  abbrev pub IsShut : Session S → Type 0
  IsShut s = s.msg_ch.closed ≡ true

  answered-IsShut : (s : Session S) (a : Handled S) → IsShut s → IsShut (answered s a)
  answered-IsShut s (handled state n none) h = h
  answered-IsShut s (handled state n (some e)) h = h
  answered-IsShut s panicked h = h

  deliver-IsShut :
      (s : Session S) (msg : Bytes) (queue : List Bytes)
      → IsShut s
      → IsShut (deliver on_msg s msg queue)
  deliver-IsShut s msg queue h = answered-IsShut _ (on_msg s.state msg) h

  handler_turn-IsShut :
      (prefer : Bool) (s : Session S) (queue : List Bytes)
      → IsShut s
      → IsShut (handler_turn on_msg prefer s queue)
  unfolding handler_turn
  handler_turn-IsShut prefer s [] h = if_both IsShut s.msg_ch.closed h h
  handler_turn-IsShut true s (msg ∷ queue) h =
      if_both IsShut s.msg_ch.closed h (deliver-IsShut s msg queue h)
  handler_turn-IsShut false s (msg ∷ queue) h = deliver-IsShut s msg queue h

  pub on_event-IsShut : (s : Session S) (e : Event) → IsShut s → IsShut (on_event on_msg s e)
  unfolding on_event recv_msg
  on_event-IsShut s (arrive pick msg now) h =
      elim (send_msg-cases udp_msg_chan_limit pick msg s.msg_ch) [
        | inl (e, room) ↦ subst (λ r. IsShut (received s msg now r)) (sym e) h
        | inr (error, e) ↦ subst (λ r. IsShut (received s msg now r)) (sym e) h
      ]
  on_event-IsShut s (turn prefer) h =
      if_both IsShut s.running (handler_turn-IsShut prefer s s.msg_ch.queue h) h
  on_event-IsShut s shut h = refl

  handler_turn_ends :
      (s : Session S) (queue : List Bytes)
      → IsShut s
      → (handler_turn on_msg true s queue).running ≡ false
  unfolding handler_turn
  handler_turn_ends s [] h = ap (λ b. (if b then record s { running = false } else s).running) h
  handler_turn_ends s (msg ∷ queue) h =
      ap (λ b. (if b then record s { running = false } else deliver on_msg s msg queue).running) h

  -- A turn that takes the close ends the handler loop of a session that is shut.
  pub turn_ends : (s : Session S) → IsShut s → (on_event on_msg s (turn true)).running ≡ false
  unfolding on_event
  turn_ends s h =
      if_either (λ (t : Session S). t.running ≡ false) s.running
        (λ runs. handler_turn_ends s s.msg_ch.queue h) (λ ended. ended)
