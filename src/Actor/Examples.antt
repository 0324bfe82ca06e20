-- ===== src/Actor/Examples.antt =====
-- A counter as an actor, and the theorems on its runs.
use gotu.Base.{ℕ, ◌+◌, true, List, [], ◌∷◌}
use gotu.Wire.{ok}
use gotu.Actor.{ActorHandlerArgs, ActorHandler, default_actor_ticker_duration}
use gotu.Actor.Loop.{
  sync_mail, async_mail, Actor, Action, post, close, on_mail, on_ticker, on_close, steps, new_actor,
}
use gotu.Actor.Loop.Order.{IsSerial, steps-IsSerial}

-- Type 1 reads the count, type 2 adds to it; nothing happens on a tick.
abbrev counter_args : ActorHandlerArgs ℕ ℕ ℕ
counter_args = record {
  syncs = (1, λ s req. (s, ok s)) ∷ [];
  asyncs = (2, λ s req. s + req) ∷ [];
  tickers = [];
  ticker_duration = 0;
}

abbrev counter : ActorHandler ℕ ℕ ℕ
counter = record {
  sync_handlers = counter_args.syncs;
  async_handlers = counter_args.asyncs;
  tick_fns = [];
  ticker_duration = default_actor_ticker_duration;
}

abbrev work : List (Action ℕ)
work =
    post (async_mail 2 5)
    ∷ post (sync_mail 7 1 0)
    ∷ on_mail
    ∷ on_ticker
    ∷ on_mail
    ∷ close
    ∷ on_close
    ∷ []

steps-IsSerial_example : IsSerial counter (λ s. s) 0 (steps counter (λ s. s) (new_actor 0) work)
steps-IsSerial_example = steps-IsSerial counter (λ s. s) 0 work

-- A synchronous mail waits when the loop ends.
abbrev late : Actor ℕ ℕ ℕ
late = record (new_actor 0) { box = sync_mail 7 1 0 ∷ []; closed = true; stopped = true }
