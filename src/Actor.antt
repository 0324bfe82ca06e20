-- ===== src/Actor.antt =====
-- pkg/xactor: the table of handlers (handler.go) and the table of actors (manager.go); the logic loop
-- in Loop. A reflect.Type is a number, a request a value of `Req` with its type beside it. Handlers
-- act on the actor's state `S`; a handler that is nil is none.
pub mod Loop
pub mod Request
pub mod Tables
mod Examples
use gotu.Base.{
  ℕ, ◌*◌, ◌^◌, Bool, Option, none, some, List, [], ◌∷◌, if◌then◌else◌, Error, request_repeated,
  actor_repeated, actor_nil,
}
use gotu.Base
use gotu.Wire.{Result, ok, err}
use Prim.Native.String.{String}
use text.Mathlib.Text.{◌==◌}

abbrev pub SyncHandler : Type 0 → Type 0 → Type 0 → Type 0
SyncHandler S Req Resp = S → Req → S × Result Resp

abbrev pub AsyncHandler : Type 0 → Type 0 → Type 0
AsyncHandler S Req = S → Req → S

abbrev pub handler_of : {H : Type 0} → ℕ → List (ℕ × H) → Option H
handler_of t [] = none
handler_of t ((u, h) ∷ table) = if Base.◌==◌ u t then some h else handler_of t table

pub record ActorHandlerArgs (S Req Resp : Type 0) : Type 0 where
  pub syncs : List (ℕ × SyncHandler S Req Resp)
  pub asyncs : List (ℕ × AsyncHandler S Req)
  pub tickers : List (S → S)
  pub ticker_duration : ℕ

-- The maps have the handlers registered last in front.
pub record ActorHandler (S Req Resp : Type 0) : Type 0 where
  pub sync_handlers : List (ℕ × SyncHandler S Req Resp)
  pub async_handlers : List (ℕ × AsyncHandler S Req)
  pub tick_fns : List (S → S)
  pub ticker_duration : ℕ

-- A loop of `newActorHandler` over its arguments.
unfoldable pub add_all : {H : Type 0} → List (ℕ × H) → List (ℕ × H) → Result (List (ℕ × H))
add_all table [] = ok table
add_all table ((t, h) ∷ args) = elim (handler_of t table) [
  | some old ↦ err (request_repeated t)
  | none ↦ add_all ((t, h) ∷ table) args
]

-- One minute, in nanoseconds.
abbrev pub default_actor_ticker_duration : ℕ
default_actor_ticker_duration = 60 * 10 ^ 9

unfoldable pub new_actor_handler :
    {S Req Resp : Type 0} → ActorHandlerArgs S Req Resp → Result (ActorHandler S Req Resp)
unfolding add_all
new_actor_handler arg = elim (add_all [] arg.syncs) [
  | err e ↦ err e
  | ok syncs ↦ elim (add_all [] arg.asyncs) [
    | err e ↦ err e
    | ok asyncs ↦ ok (record {
      sync_handlers = syncs;
      async_handlers = asyncs;
      tick_fns = arg.tickers;
      ticker_duration =
          if Base.◌==◌ arg.ticker_duration 0
          then default_actor_ticker_duration
          else arg.ticker_duration;
    })
  ]
]

-- The map `actors`, by name.
abbrev pub Actors : Type 0 → Type 0
Actors A = List (String × A)

abbrev pub named : {A : Type 0} → String → Actors A → Option A
named name [] = none
named name ((n, a) ∷ actors) = if n == name then some a else named name actors

unfoldable pub register_actor : {A : Type 0} → String → A → Actors A → Result (Actors A)
register_actor name actor actors = elim (named name actors) [
  | some old ↦ err (actor_repeated name)
  | none ↦ ok ((name, actor) ∷ actors)
]

unfoldable pub deregister_actor : {A : Type 0} → String → Actors A → Actors A
deregister_actor name [] = []
deregister_actor name ((n, a) ∷ actors) =
    if n == name then deregister_actor name actors else (n, a) ∷ deregister_actor name actors

unfoldable pub get_actor : {A : Type 0} → String → Actors A → Result A
get_actor name actors = elim (named name actors) [
  | some actor ↦ ok actor
  | none ↦ err (actor_nil name)
]
