-- ===== src/Latency/Flow.antt =====
-- A run of the latency actor (latency.go): messages that are received, and ticks. `sent` is what the
-- callbacks got so far, `passed` the messages that the random numbers let through.
pub mod Settings
pub mod Balance
use gotu.Base.{ℕ, Bool, true, false, Option, none, some, List, [], ◌∷◌, ◌++◌, if◌then◌else◌}
use gotu.Wire.{Bytes}
use gotu.Latency.{LatencyMsg, LatencyActor, Sent, recv, tick_loop, unlucky}
use gotu.Latency.Tick.{loss}

pub record Flow : Type 0 where
  pub actor : LatencyActor
  pub sent : Sent
  pub passed : Sent

pub data Event : Type 0 where
  arrive : Bool → ℕ → ℕ → ℕ → Bytes → Event
  tick : ℕ → Event

abbrev pub arrived : Flow → Bool → Bool → Bytes → Option LatencyActor → Option Flow
arrived f lost inout msg none = none
arrived f lost inout msg (some l) = some (record {
  actor = l;
  sent = f.sent;
  passed = if lost then f.passed else f.passed ++ ((inout, msg) ∷ []);
})

unfoldable pub flow_event : Flow → Event → Option Flow
flow_event f (arrive inout now r r' msg) =
    arrived f (unlucky r (loss inout f.actor)) inout msg (recv inout now r r' msg f.actor)
flow_event f (tick now) =
    let (l, sent) = tick_loop now f.actor in some (record f { actor = l; sent = f.sent ++ sent })

unfoldable pub flow : Flow → List Event → Option Flow
unfolding flow_event
flow f [] = some f
flow f (e ∷ events) = elim (flow_event f e) [ none ↦ none | some f' ↦ flow f' events ]
