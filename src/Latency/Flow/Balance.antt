-- ===== src/Latency/Flow/Balance.antt =====
-- What becomes of the messages of a run of the latency actor (latency.go).
use gotu.Base.{
  ℕ, ◌+◌, ◌<◌, ◌^◌, ◌≡◌, refl, sym, ap, ◌∙◌, subst, Bool, true, false, ltb, Option, none, some,
  List, [], ◌∷◌, ◌++◌, append_assoc, if◌then◌else◌, Bool-cases, inl, inr,
}
use gotu.Wire.{Bytes}
use gotu.Latency.{LatencyMsg, LatencyActor, Sent, recv, unlucky}
use gotu.Latency.Tick.{later, due, tick_loop-splits, latency, loss, recv-queues}
use gotu.Latency.Flow.{Flow, Event, arrive, tick, arrived, flow_event, flow}
use mathlib.Core.List.{Perm, perm_middle}
use mathlib.Core.List.Perm
use gotu.Latency.Flow.Settings.{IsAlike, MayBeAlike, recv-MayBeAlike}

-- A message as the callbacks see it.
abbrev pub view : List LatencyMsg → Sent
view [] = []
view (m ∷ ms) = (m.inout, m.msg) ∷ view ms

view-append : (xs ys : List LatencyMsg) → view (xs ++ ys) ≡ view xs ++ view ys
view-append [] ys = refl
view-append (m ∷ xs) ys = ap (λ v. (m.inout, m.msg) ∷ v) (view-append xs ys)

due-later : (now : ℕ) (ms : List LatencyMsg) → Perm (due now ms ++ view (later now ms)) (view ms)
due-later now [] = Perm.refl []
due-later now (m ∷ ms) = elim (Bool-cases (ltb now m.at)) [
  | inl e ↦ rw e (
      Perm.trans (perm_middle (due now ms) (view (later now ms)))
        (Perm.cons (m.inout, m.msg) (due-later now ms)))
  | inr e ↦ rw e (Perm.cons (m.inout, m.msg) (due-later now ms))
]

-- What was sent and what waits are together what was let through; both callbacks are registered and
-- no latency makes the random source panic.
abbrev pub IsWhole : Flow → Type 0
IsWhole f =
    Perm (f.sent ++ view f.actor.msgs) f.passed
    × (f.actor.send_to_cli ≡ true)
    × (f.actor.send_to_svr ≡ true)
    × (f.actor.in_latency < 2 ^ 31)
    × (f.actor.out_latency < 2 ^ 31)

abbrev pub RunsWhole : Option Flow → Type 0
RunsWhole none = ⊥
RunsWhole (some f) = IsWhole f

small : (inout : Bool) (f : Flow) → IsWhole f → latency inout f.actor < 2 ^ 31
small true f (p, c, s, i, o) = i
small false f (p, c, s, i, o) = o

-- The settings of a later state.
carried :
    (f : Flow) (l' : LatencyActor) (passed : Sent)
    → IsWhole f
    → IsAlike f.actor l'
    → Perm (f.sent ++ view l'.msgs) passed
    → IsWhole (record { actor = l'; sent = f.sent; passed = passed })
carried f l' passed (p, c, s, i, o) (ec, es, ei, eo) q =
    (q, ec ∙ c, es ∙ s, subst (λ n. n < 2 ^ 31) (sym ei) i, subst (λ n. n < 2 ^ 31) (sym eo) o)

tick-IsWhole : (f : Flow) (now : ℕ) → IsWhole f → RunsWhole (flow_event f (tick now))
unfolding flow_event
tick-IsWhole f now (p, c, s, i, o) =
    subst (λ r. RunsWhole (some (record f { actor = r.0; sent = f.sent ++ r.1 })))
      (sym (tick_loop-splits f.actor now c s))
      (
        subst (λ v. Perm v f.passed)
            (sym (append_assoc f.sent (due now f.actor.msgs) (view (later now f.actor.msgs))))
            (Perm.trans (Perm.append_left f.sent (due-later now f.actor.msgs)) p),
        c,
        s,
        i,
        o,
      )

one_more :
    (f : Flow) (inout : Bool) (msg : Bytes) (at : ℕ)
    → Perm (f.sent ++ view f.actor.msgs) f.passed
    → Perm
        (f.sent ++ view (f.actor.msgs ++ (record { inout = inout; at = at; msg = msg } ∷ [])))
        (f.passed ++ ((inout, msg) ∷ []))
one_more f inout msg at p =
    subst (λ v. Perm v (f.passed ++ ((inout, msg) ∷ [])))
      (append_assoc f.sent (view f.actor.msgs) ((inout, msg) ∷ [])
        ∙ ap (λ v. f.sent ++ v)
            (sym (view-append f.actor.msgs (record { inout = inout; at = at; msg = msg } ∷ []))))
      (Perm.append_right ((inout, msg) ∷ []) p)

arrive-IsWhole :
    (f : Flow) (inout : Bool) (now r r' : ℕ) (msg : Bytes)
    → IsWhole f
    → RunsWhole (flow_event f (arrive inout now r r' msg))
unfolding flow_event
arrive-IsWhole f inout now r r' msg w =
    let alike = recv-MayBeAlike inout now r r' msg f.actor in
    let dooms = unlucky r (loss inout f.actor) in
    let whole =
      λ (l' : LatencyActor) (e : recv inout now r r' msg f.actor ≡ some l')
          (q : Perm (f.sent ++ view l'.msgs)
            (if dooms then f.passed else f.passed ++ ((inout, msg) ∷ []))).
        subst (λ o. RunsWhole (arrived f dooms inout msg o)) (sym e)
          (carried f l' (if dooms then f.passed else f.passed ++ ((inout, msg) ∷ [])) w
            (subst (MayBeAlike f.actor) e alike) q) in
    elim (recv-queues inout now r r' msg f.actor (small inout f w)) [
      | inl (lost, (l', e, same)) ↦ whole l' e (
          subst
            (λ b.
              Perm (f.sent ++ view l'.msgs)
                (if b then f.passed else f.passed ++ ((inout, msg) ∷ [])))
            (sym lost) (subst (λ ms. Perm (f.sent ++ view ms) f.passed) (sym same) w.0))
      | inr (kept, (l', delay, e, queued, less)) ↦ whole l' e (
          subst
            (λ b.
              Perm (f.sent ++ view l'.msgs)
                (if b then f.passed else f.passed ++ ((inout, msg) ∷ [])))
            (sym kept)
            (subst (λ ms. Perm (f.sent ++ view ms) (f.passed ++ ((inout, msg) ∷ []))) (sym queued)
              (one_more f inout msg (now + delay) w.0)))
    ]

pub event-IsWhole : (f : Flow) (e : Event) → IsWhole f → RunsWhole (flow_event f e)
event-IsWhole f (arrive inout now r r' msg) w = arrive-IsWhole f inout now r r' msg w
event-IsWhole f (tick now) w = tick-IsWhole f now w

goes_on :
    (events : List Event) (o : Option Flow)
    → RunsWhole o
    → ((f : Flow) → IsWhole f → RunsWhole (flow f events))
    → RunsWhole (elim o [ none ↦ none | some f' ↦ flow f' events ])
goes_on events none impossible k = impossible
goes_on events (some f) w k = k f w

-- With both callbacks registered and latencies below 2^31 a run of messages and ticks, in any order
-- and at any times, does not panic; and the messages that were handed to the callbacks and those that
-- wait are together, in some order, just those that the random numbers let through, each of them as
-- often as it came and with its direction.
pub flow-IsWhole : (f : Flow) (events : List Event) → IsWhole f → RunsWhole (flow f events)
unfolding flow
flow-IsWhole f [] w = w
flow-IsWhole f (e ∷ events) w =
    goes_on events (flow_event f e) (event-IsWhole f e w) (λ f' w'. flow-IsWhole f' events w')
