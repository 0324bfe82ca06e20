-- ===== src/Actor/Request.antt =====
-- handler.go, actor_groutine.go and manager.go: the wrappers that check the type of a request, the
-- requests to an actor by its name, and CloseAll. A value behind an `interface{}` is a number for its
-- type and a payload.
pub mod Served
pub mod Closed
mod Examples
use gotu.Base.{
  ℕ, zero, suc, Bool, true, false, Option, none, some, List, [], ◌∷◌, ◌==◌, if◌then◌else◌, Error,
  request_mistyped, request_cancelled, result_mistyped,
}
use gotu.Wire.{Result, ok, err}
use gotu.Actor.{SyncHandler, AsyncHandler, ActorHandler, Actors, get_actor, deregister_actor}
use gotu.Actor.Loop.{Mail, sync_mail, async_mail, Actor, Action, post, close, on_close, step, steps}
use Prim.Native.String.{String}

abbrev pub Any : Type 0 → Type 0
Any V = ℕ × V

module _ {S V : Type 0} where
  unfoldable pub sync_handler_wrap :
      ℕ → (S → V → S × Result (Any V)) → SyncHandler S (Any V) (Any V)
  sync_handler_wrap t fn s (u, v) = if u == t then fn s v else (s, err (request_mistyped u t))

  unfoldable pub async_handler_wrap : ℕ → (S → V → S) → AsyncHandler S (Any V)
  async_handler_wrap t fn s (u, v) = if u == t then fn s v else s

-- The result on a channel, by the channel's number.
abbrev pub result_of : {R : Type 0} → ℕ → List (ℕ × R) → Option R
result_of id [] = none
result_of id ((i, r) ∷ results) = if i == id then some r else result_of id results

-- The select of `syncRequest`, with whether the context is done and which case it takes where both are
-- ready; `none` where it still blocks.
unfoldable pub await : {R : Type 0} → Bool → Bool → Option (Result R) → Option (Result R)
await false prefer o = o
await true prefer none = some (err request_cancelled)
await true true (some r) = some (err request_cancelled)
await true false (some r) = some r

-- `SyncRequest` with the result: the test for the type that is asked for.
unfoldable pub typed : {V : Type 0} → ℕ → Result (Any V) → Result V
typed t (err e) = err e
typed t (ok (u, v)) = if u == t then ok v else err (result_mistyped u t)

module _ {S V : Type 0} (h : ActorHandler S (Any V) (Any V)) (close_state : S → S) where
  abbrev pub typed_reply : ℕ → Option (Result (Any V)) → Option (Result V)
  typed_reply t none = none
  typed_reply t (some r) = some (typed t r)

  -- `SyncRequest` for an actor that was found or not, with its mail on channel `id`; `turns` are what
  -- happens from then on, up to the moment at which the select is looked at.
  unfoldable pub sync_request :
      Result (Actor S (Any V) (Any V))
      → ℕ
      → Any V
      → ℕ
      → List (Action (Any V))
      → Bool
      → Bool
      → Option (Result V)
  unfolding await typed
  sync_request (err e) id req t turns done prefer = some (err e)
  sync_request (ok a) id req t turns done prefer = typed_reply t (
      await done prefer
        (result_of id (steps h close_state a (post (sync_mail id req.0 req) ∷ turns)).results))

  -- `AsyncRequest`: nothing where there is no actor.
  unfoldable pub async_request :
      Result (Actor S (Any V) (Any V)) → Any V → Result (Actor S (Any V) (Any V))
  async_request (err e) req = err e
  async_request (ok a) req = ok (step h close_state a (post (async_mail req.0 req)))

  -- `Close` of an actor, whose loop takes the close after some turns of its own. `none` is the panic of
  -- closing a closed channel.
  unfoldable pub close_one :
      List (Action (Any V)) → Actor S (Any V) (Any V) → Option (Actor S (Any V) (Any V))
  close_one turns a =
      if a.closed
      then none
      else some
          (step h close_state (steps h close_state (step h close_state a close) turns) on_close)

  -- `CloseAll` over the actors that it found in the table, which leave it one by one; the closed ones
  -- are gathered.
  unfoldable pub close_all :
      List (Action (Any V))
      → Actors (Actor S (Any V) (Any V))
      → Actors (Actor S (Any V) (Any V))
      → Option (Actors (Actor S (Any V) (Any V)) × List (Actor S (Any V) (Any V)))
  unfolding close_one
  close_all turns [] table = some (table, [])
  close_all turns ((name, a) ∷ found) table = elim (close_one turns a) [
    | none ↦ none
    | some a' ↦ elim (close_all turns found (deregister_actor name table)) [
      | none ↦ none
      | some (rest, closed) ↦ some (rest, a' ∷ closed)
    ]
  ]
