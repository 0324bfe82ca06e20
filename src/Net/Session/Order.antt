-- ===== src/Net/Session/Order.antt =====
-- The messages of a session (udp_session.go), from the arrival to the callback.
use gotu.Base.{
  ℕ, ◌≤◌, ◌≡◌, refl, sym, ap, ◌∙◌, subst, Bool, true, false, none, some, List, [], ◌∷◌, ◌++◌,
  length, append_assoc, arith, length-append, inl, inr, if_both,
}
use gotu.Wire.{Bytes}
use gotu.Net.Handler.{Handled, handled, panicked, OnHandlerOnce}
use gotu.Net.Write.{send_msg}
use gotu.Net.Write.Cases.{send_msg-cases}
use gotu.Net.Session.{
  Session, new_session, Event, arrive, turn, shut, received, recv_msg, answered, deliver,
  handler_turn, on_event, on_events, udp_msg_chan_limit,
}

-- Delivered and waiting messages are the accepted ones, in order, and no more wait than fit.
abbrev pub IsQueued {ℓ} : {S : Type ℓ} → Session S → Type 0
IsQueued s =
    (s.delivered ++ s.msg_ch.queue ≡ s.accepted) × (length s.msg_ch.queue ≤ udp_msg_chan_limit)

module _ {S : Type 0} (on_msg : OnHandlerOnce S) where
  received-IsQueued :
      (pick : Bool) (msg : Bytes) (now : ℕ) (s : Session S)
      → IsQueued s
      → IsQueued (received s msg now (send_msg udp_msg_chan_limit pick msg s.msg_ch))
  received-IsQueued pick msg now s (h, room) =
      elim (send_msg-cases udp_msg_chan_limit pick msg s.msg_ch) [
        | inl (e, less) ↦
            subst (λ r. IsQueued (received s msg now r)) (sym e)
              (
                sym (append_assoc s.delivered s.msg_ch.queue (msg ∷ []))
                    ∙ ap (λ q. q ++ (msg ∷ [])) h,
                omega (arith, less, length-append s.msg_ch.queue (msg ∷ [])),
              )
        | inr (error, e) ↦ subst (λ r. IsQueued (received s msg now r)) (sym e) (h, room)
      ]

  answered-IsQueued : (s : Session S) (a : Handled S) → IsQueued s → IsQueued (answered s a)
  answered-IsQueued s (handled state n none) h = h
  answered-IsQueued s (handled state n (some e)) h = h
  answered-IsQueued s panicked h = h

  deliver-IsQueued :
      (s : Session S) (msg : Bytes) (queue : List Bytes)
      → IsQueued (record s { msg_ch = record s.msg_ch { queue = msg ∷ queue } })
      → IsQueued
          (deliver on_msg (record s { msg_ch = record s.msg_ch { queue = msg ∷ queue } }) msg queue)
  deliver-IsQueued s msg queue (h, room) =
      answered-IsQueued _ (on_msg s.state msg)
        (append_assoc s.delivered (msg ∷ []) queue ∙ h, omega (arith, room))

  handler_turn-IsQueued :
      (prefer : Bool) (s : Session S) (queue : List Bytes)
      → IsQueued (record s { msg_ch = record s.msg_ch { queue = queue } })
      → IsQueued (
          handler_turn on_msg prefer
            (record s { msg_ch = record s.msg_ch { queue = queue } })
            queue)
  unfolding handler_turn
  handler_turn-IsQueued prefer s [] h = if_both IsQueued s.msg_ch.closed h h
  handler_turn-IsQueued true s (msg ∷ queue) h =
      if_both IsQueued s.msg_ch.closed h (deliver-IsQueued s msg queue h)
  handler_turn-IsQueued false s (msg ∷ queue) h = deliver-IsQueued s msg queue h

  pub on_event-IsQueued : (s : Session S) (e : Event) → IsQueued s → IsQueued (on_event on_msg s e)
  unfolding on_event recv_msg
  on_event-IsQueued s (arrive pick msg now) h = received-IsQueued pick msg now s h
  on_event-IsQueued s (turn prefer) h =
      if_both IsQueued s.running (handler_turn-IsQueued prefer s s.msg_ch.queue h) h
  on_event-IsQueued s shut h = h

  on_events-IsQueued_from :
      (s : Session S) (events : List Event) → IsQueued s → IsQueued (on_events on_msg s events)
  unfolding on_events
  on_events-IsQueued_from s [] h = h
  on_events-IsQueued_from s (e ∷ events) h =
      on_events-IsQueued_from (on_event on_msg s e) events (on_event-IsQueued s e h)

  -- Whatever arrivals, closes and turns of the loop come in whatever order, and whatever the callback
  -- answers: the messages given to the callback and those that wait are together the accepted ones, in
  -- order and none twice, and at most 1024 wait.
  pub on_events-IsQueued :
      (state : S) (now : ℕ) (events : List Event)
      → IsQueued (on_events on_msg (new_session state now) events)
  on_events-IsQueued state now events =
      on_events-IsQueued_from (new_session state now) events (refl, omega arith)
