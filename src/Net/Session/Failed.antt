-- ===== src/Net/Session/Failed.antt =====
-- A session (udp_session.go) whose handler loop is over while the server (udp_server.go) keeps it.
use gotu.Base.{
  ℕ, ◌+◌, ◌≤◌, ◌<◌, ◌≡◌, refl, sym, ap, ◌∙◌, subst, Bool, false, none, List, [], ◌∷◌, ◌++◌, length,
  inl, inr, if◌then◌else◌, le→not-ltb,
}
use gotu.Wire.{Bytes}
use gotu.Net.Handler.{OnHandlerOnce}
use gotu.Net.Write.Cases.{send_msg-cases, send_msg-open}
use gotu.Net.Session.{
  Session, Event, arrive, turn, shut, received, recv_msg, handler_turn, on_event, on_events,
  expires, udp_msg_chan_limit,
}

module _ {S : Type 0} (on_msg : OnHandlerOnce S) where
  abbrev pub IsSilent : Session S → Session S → Type 0
  IsSilent s s' = (s'.running ≡ false) × (s'.delivered ≡ s.delivered)

  pub on_event-IsSilent :
      (s : Session S) (e : Event) → s.running ≡ false → IsSilent s (on_event on_msg s e)
  unfolding on_event recv_msg
  on_event-IsSilent s (arrive pick msg now) h =
      elim (send_msg-cases udp_msg_chan_limit pick msg s.msg_ch) [
        | inl (e, room) ↦ subst (λ r. IsSilent s (received s msg now r)) (sym e) (h, refl)
        | inr (error, e) ↦ subst (λ r. IsSilent s (received s msg now r)) (sym e) (h, refl)
      ]
  on_event-IsSilent s (turn prefer) h =
      subst (λ b. IsSilent s (if b then handler_turn on_msg prefer s s.msg_ch.queue else s)) (sym h)
        (h, refl)
  on_event-IsSilent s shut h = (h, refl)

  on_events-silent :
      (s : Session S) (events : List Event)
      → s.running ≡ false
      → (on_events on_msg s events).delivered ≡ s.delivered
  unfolding on_events
  on_events-silent s [] h = refl
  on_events-silent s (e ∷ events) h =
      let (still, same) = on_event-IsSilent s e h in
      on_events-silent (on_event on_msg s e) events still ∙ same

  received_lem :
      (pick : Bool) (msg : Bytes) (now : ℕ) (s : Session S)
      → s.msg_ch.closed ≡ false
      → length s.msg_ch.queue < udp_msg_chan_limit
      → recv_msg pick msg now s
        ≡ received s msg now (record s.msg_ch { queue = s.msg_ch.queue ++ (msg ∷ []) }, none)
  unfolding recv_msg
  received_lem pick msg now s open_ch room =
      ap (received s msg now) (send_msg-open udp_msg_chan_limit pick msg s.msg_ch open_ch room)

  -- After the callback has failed, with the session still open, a message of the peer is accepted as
  -- long as there is room, and keeps the session from expiring until `timeout` later; but neither it
  -- nor any other message is ever given to the callback.
  pub failed_session :
      (pick : Bool) (msg : Bytes) (now timeout later : ℕ) (s : Session S) (events : List Event)
      → s.running ≡ false
      → s.msg_ch.closed ≡ false
      → length s.msg_ch.queue < udp_msg_chan_limit
      → later ≤ now + timeout
      → ((recv_msg pick msg now s).accepted ≡ s.accepted ++ (msg ∷ []))
        × (expires timeout later (recv_msg pick msg now s) ≡ false)
        × ((on_events on_msg (recv_msg pick msg now s) events).delivered ≡ s.delivered)
  failed_session pick msg now timeout later s events stopped open_ch room soon =
      let same = received_lem pick msg now s open_ch room in
      (
        ap (λ r. r.accepted) same,
        ap (λ r. expires timeout later r) same ∙ le→not-ltb (now + timeout) later soon,
        on_events-silent (recv_msg pick msg now s) events (ap (λ r. r.running) same ∙ stopped)
            ∙ ap (λ r. r.delivered) same,
      )
