-- ===== src/Net/Session/Calm.antt =====
-- Sessions (udp_session.go) whose callback does not panic.
use gotu.Base.{
  ◌≡◌, ◌≢◌, refl, ℕ, Bool, true, false, Option, none, some, List, [], ◌∷◌, Error, if_both,
}
use gotu.Wire.{Bytes}
use gotu.Net.Handler.{Handled, handled, panicked, OnHandlerOnce}
use gotu.Net.Write.{Channel, send_msg}
use gotu.Net.Session.{
  Session, Event, arrive, turn, shut, received, recv_msg, answered, deliver, handler_turn, on_event,
  udp_msg_chan_limit,
}

module _ {S : Type 0} where
  received-crashed :
      (s : Session S) (msg : Bytes) (now : ℕ) (r : Channel Bytes × Option Error)
      → (received s msg now r).crashed ≡ s.crashed
  received-crashed s msg now (c, none) = refl
  received-crashed s msg now (c, some e) = refl

  pub recv_msg-crashed :
      (pick : Bool) (msg : Bytes) (now : ℕ) (s : Session S)
      → (recv_msg pick msg now s).crashed ≡ s.crashed
  unfolding recv_msg
  recv_msg-crashed pick msg now s =
      received-crashed s msg now (send_msg udp_msg_chan_limit pick msg s.msg_ch)

  abbrev pub IsCalm : OnHandlerOnce S → Type 0
  IsCalm on_msg = (s : S) (msg : Bytes) → on_msg s msg ≢ panicked

  answered-crashed :
      (s : Session S) (a : Handled S) → a ≢ panicked → (answered s a).crashed ≡ s.crashed
  answered-crashed s (handled state n none) ne = refl
  answered-crashed s (handled state n (some e)) ne = refl
  answered-crashed s panicked ne = absurd (ne refl)

module _ {S : Type 0} (on_msg : OnHandlerOnce S) (calm : IsCalm on_msg) where
  deliver-crashed :
      (s : Session S) (msg : Bytes) (queue : List Bytes)
      → (deliver on_msg s msg queue).crashed ≡ s.crashed
  deliver-crashed s msg queue = answered-crashed _ (on_msg s.state msg) (calm s.state msg)

  handler_turn-crashed :
      (prefer : Bool) (s : Session S) (queue : List Bytes)
      → (handler_turn on_msg prefer s queue).crashed ≡ s.crashed
  unfolding handler_turn
  handler_turn-crashed prefer s [] =
      if_both (λ (t : Session S). t.crashed ≡ s.crashed) s.msg_ch.closed refl refl
  handler_turn-crashed true s (msg ∷ queue) =
      if_both (λ (t : Session S). t.crashed ≡ s.crashed) s.msg_ch.closed refl
        (deliver-crashed s msg queue)
  handler_turn-crashed false s (msg ∷ queue) = deliver-crashed s msg queue

  pub on_event-crashed : (s : Session S) (e : Event) → (on_event on_msg s e).crashed ≡ s.crashed
  unfolding on_event
  on_event-crashed s (arrive pick msg now) = recv_msg-crashed pick msg now s
  on_event-crashed s (turn prefer) =
      if_both (λ (t : Session S). t.crashed ≡ s.crashed) s.running
        (handler_turn-crashed prefer s s.msg_ch.queue) refl
  on_event-crashed s shut = refl
