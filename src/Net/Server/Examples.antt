-- ===== src/Net/Server/Examples.antt =====
-- Servers at work, and the theorems on concrete schedules.
use gotu.Base.{◌≡◌, refl, List, [], ◌∷◌, arith}
use gotu.Net.Server.{
  tcp, kcp, returned, new_server, Action, accepts, check, made, add, close, step, steps,
}
use gotu.Net.Server.Sweep.{IsGuarded}
use gotu.Net.Server.Invariant.{steps-IsGuarded}
use gotu.Net.Server.Deadlock.{IsStuck, made-IsStuck}
use gotu.Net.Server.Progress.{drive, close_returns}

-- A socket is added, a second one is in the making when Close is called.
abbrev busy : List Action
busy = accepts ∷ check ∷ made ∷ add ∷ accepts ∷ check ∷ close ∷ close ∷ close ∷ []

steps-IsGuarded_example : IsGuarded tcp (steps tcp new_server busy)
steps-IsGuarded_example = steps-IsGuarded tcp busy

close_returns_example : (drive 10 (steps tcp new_server busy)).closer ≡ returned
unfolding steps
close_returns_example = close_returns 10 busy (omega arith)

-- No socket yet, and Close comes while the handshake of the first is under way.
abbrev early_close : List Action
early_close = accepts ∷ check ∷ close ∷ close ∷ close ∷ close ∷ []

made-IsStuck_example :
    IsStuck 0 (steps kcp (step kcp (steps kcp new_server early_close) made) (add ∷ close ∷ []))
unfolding steps
made-IsStuck_example = made-IsStuck early_close (add ∷ close ∷ []) 0 refl refl
