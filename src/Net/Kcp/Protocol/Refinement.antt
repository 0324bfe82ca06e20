-- ===== src/Net/Kcp/Protocol/Refinement.antt =====
-- The two ends refine the machine over stages: step by step, and along every schedule.
use gotu.Base.{◌≡◌, refl, Bool, true, false, List, [], ◌∷◌}
use gotu.Net.Kcp.Protocol.{
  Action, client_init, server_init, client_close, server_close, deliver_up, deliver_down, start,
  act, run,
}
use gotu.Net.Kcp.Protocol.Stages.{Stage, idle, Phase, phase, system_of, next_phase}

act-deliver_up :
    (stage : Stage) (f a b : Bool)
    → act (system_of (phase stage f a b)) deliver_up
      ≡ system_of (next_phase (phase stage f a b) deliver_up)
unfolding act
act-deliver_up idle f a b = refl
act-deliver_up _ f a b = refl

act-deliver_down :
    (stage : Stage) (f a b : Bool)
    → act (system_of (phase stage f a b)) deliver_down
      ≡ system_of (next_phase (phase stage f a b) deliver_down)
unfolding act
act-deliver_down idle f a b = refl
act-deliver_down _ f a b = refl

act-client_init :
    (stage : Stage) (f a b : Bool)
    → act (system_of (phase stage f a b)) client_init
      ≡ system_of (next_phase (phase stage f a b) client_init)
unfolding act
act-client_init idle f a b = refl
act-client_init _ f a b = refl

act-server_init :
    (stage : Stage) (f a b : Bool)
    → act (system_of (phase stage f a b)) server_init
      ≡ system_of (next_phase (phase stage f a b) server_init)
unfolding act
act-server_init idle true a b = refl
act-server_init idle false a b = refl
act-server_init _ true a b = refl
act-server_init _ false a b = refl

act-client_close :
    (stage : Stage) (f a b : Bool)
    → act (system_of (phase stage f a b)) client_close
      ≡ system_of (next_phase (phase stage f a b) client_close)
unfolding act
act-client_close idle f true b = refl
act-client_close idle f false b = refl
act-client_close _ f true b = refl
act-client_close _ f false b = refl

act-server_close :
    (stage : Stage) (f a b : Bool)
    → act (system_of (phase stage f a b)) server_close
      ≡ system_of (next_phase (phase stage f a b) server_close)
unfolding act
act-server_close idle f a true = refl
act-server_close idle f a false = refl
act-server_close _ f a true = refl
act-server_close _ f a false = refl

-- One step of the two ends is one step of the abstract machine.
pub act-system_of : (p : Phase) (x : Action) → act (system_of p) x ≡ system_of (next_phase p x)
act-system_of p client_init = act-client_init p.stage p.server_init p.client_close p.server_close
act-system_of p server_init = act-server_init p.stage p.server_init p.client_close p.server_close
act-system_of p client_close = act-client_close p.stage p.server_init p.client_close p.server_close
act-system_of p server_close = act-server_close p.stage p.server_init p.client_close p.server_close
act-system_of p deliver_up = act-deliver_up p.stage p.server_init p.client_close p.server_close
act-system_of p deliver_down = act-deliver_down p.stage p.server_init p.client_close p.server_close

abbrev pub begin : Phase
begin = phase idle false false false

start-system_of : start ≡ system_of begin
unfolding start
start-system_of = refl

abbrev pub run_phases : Phase → List Action → Phase
run_phases p [] = p
run_phases p (x ∷ xs) = run_phases (next_phase p x) xs

-- Every schedule of the two ends is one of the abstract machine.
pub run-system_of :
    (p : Phase) (xs : List Action) → run (system_of p) xs ≡ system_of (run_phases p xs)
unfolding run
run-system_of p [] = refl
run-system_of p (x ∷ xs) = rw (act-system_of p x) (run-system_of (next_phase p x) xs)

pub run-start : (xs : List Action) → run start xs ≡ system_of (run_phases begin xs)
run-start xs = rw start-system_of (run-system_of begin xs)
