-- ===== src/Latency/Examples.antt =====
-- The latency actor at work.
use gotu.Base.{refl, true, false, List, [], ◌∷◌, arith}
use gotu.Latency.{
  LatencyActor, LatencyMockArgs, new_latency_actor, register_send_to_cli, register_send_to_svr,
}
use gotu.Latency.Flow.{Flow, Event, arrive, tick, flow}
use gotu.Latency.Flow.Balance.{RunsWhole, flow-IsWhole}
use mathlib.Core.List.Perm

abbrev arg : LatencyMockArgs
arg = record { in_loss = 10; in_latency = 50; out_loss = 0; out_latency = 0 }

-- Two messages wait, one of them for the server.
abbrev waiting : LatencyActor
waiting = record (register_send_to_svr true (register_send_to_cli true (new_latency_actor arg))) {
  msgs =
      record { inout = true; at = 900; msg = 7 ∷ [] }
      ∷ record { inout = false; at = 1200; msg = 8 ∷ [] }
      ∷ [];
}

-- Messages come from both sides while the two wait.
abbrev events : List Event
events =
    arrive true 1000 50 3 (9 ∷ [])
    ∷ tick 1000
    ∷ arrive true 1001 5 3 (6 ∷ [])
    ∷ arrive false 1002 50 3 (5 ∷ [])
    ∷ tick 1300
    ∷ []

abbrev begun : Flow
begun = record { actor = waiting; sent = []; passed = (true, 7 ∷ []) ∷ (false, 8 ∷ []) ∷ [] }

flow-IsWhole_example : RunsWhole (flow begun events)
unfolding register_send_to_svr register_send_to_cli new_latency_actor
flow-IsWhole_example = flow-IsWhole begun events (Perm.refl _, refl, refl, omega arith, omega arith)
