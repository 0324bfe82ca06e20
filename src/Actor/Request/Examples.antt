-- ===== src/Actor/Request/Examples.antt =====
-- A counter that is asked through the wrappers (handler.go, actor_groutine.go), and CloseAll.
use gotu.Base.{ℕ, ◌+◌, ◌≡◌, refl, false, some, [], ◌∷◌, arith}
use gotu.Wire.{ok}
use gotu.Actor.{ActorHandler, Actors}
use gotu.Actor.Loop.{Actor, async_mail, on_mail, new_actor}
use gotu.Actor.Loop.Drained.{again}
use gotu.Actor.Request
use gotu.Actor.Request.{Any, sync_handler_wrap, async_handler_wrap, sync_request, close_all}
use gotu.Actor.Request.Served.{sync_request-served}

abbrev counter : ActorHandler ℕ (Any ℕ) (Any ℕ)
counter = record {
  sync_handlers = (1, sync_handler_wrap 1 (λ s v. (s, ok (11, s)))) ∷ [];
  async_handlers = (2, async_handler_wrap 2 (λ s v. s + v)) ∷ [];
  tick_fns = [];
  ticker_duration = 1;
}

-- Five are to be added first.
abbrev busy : Actor ℕ (Any ℕ) (Any ℕ)
busy = record (new_actor 3) { box = async_mail 2 (2, 5) ∷ [] }

sync_request-served_example :
    sync_request counter (λ s. s) (ok busy) 7 (1, 0) 11 (again 2 on_mail) false false ≡ some (ok 8)
unfolding sync_handler_wrap async_handler_wrap Request.typed
sync_request-served_example =
    sync_request-served counter (λ s. s) busy 7 11 1 0 (λ s v. (s, ok (11, s))) false refl
      (omega arith) refl refl refl

abbrev two_actors : Actors (Actor ℕ (Any ℕ) (Any ℕ))
two_actors = ("a", busy) ∷ ("b", new_actor 0) ∷ []
