-- ===== src/Actor/Loop.antt =====
-- actor_groutine.go and mailbox.go: the mail box, the logic loop and the close of one actor. Posts,
-- the close and the turns of the loop come in any order. The fields `posted` and `log` are a record of
-- the past that no step looks at.
pub mod Order
pub mod Drained
pub mod Ends
use gotu.Base.{
  ℕ, Bool, true, false, Option, none, some, List, [], ◌∷◌, ◌++◌, ltb, length, if◌then◌else◌, Error,
  handler_nil,
}
use gotu.Wire.{Result, ok, err}
use gotu.Actor.{SyncHandler, AsyncHandler, handler_of, ActorHandler}

-- A mail of `syncRequest` carries the number of its result channel; both carry the request's type.
pub data Mail (Req : Type 0) : Type 0 where
  sync_mail : ℕ → ℕ → Req → Mail Req
  async_mail : ℕ → Req → Mail Req

-- What the loop did in a turn.
pub data Event (Req : Type 0) : Type 0 where
  took : Mail Req → Event Req
  ticked : Event Req
  shut_down : Event Req

abbrev pub mail_max_count : ℕ
mail_max_count = 100

-- `results` holds what was sent on the result channels, with their numbers. `crashed` is the panic of
-- closing a closed channel.
pub record Actor (S Req Resp : Type 0) : Type 0 where
  pub state : S
  pub box : List (Mail Req)
  pub closed : Bool
  pub stopped : Bool
  pub crashed : Bool
  pub results : List (ℕ × Result Resp)
  pub posted : List (Mail Req)
  pub log : List (Event Req)

pub data Action (Req : Type 0) : Type 0 where
  post : Mail Req → Action Req
  close : Action Req
  on_mail : Action Req
  on_ticker : Action Req
  on_close : Action Req

module _ {S Req Resp : Type 0} (h : ActorHandler S Req Resp) (close_state : S → S) where
  abbrev pub ticks : List (S → S) → S → S
  ticks [] s = s
  ticks (fn ∷ fns) s = ticks fns (fn s)

  -- What a mail comes to with the handler that was found: the state after it, and what is sent on a
  -- result channel.
  abbrev pub run_sync : S → ℕ → Req → Option (SyncHandler S Req Resp) → S × List (ℕ × Result Resp)
  run_sync s id req none = (s, (id, err handler_nil) ∷ [])
  run_sync s id req (some handler) = let (s', r) = handler s req in (s', (id, r) ∷ [])

  abbrev pub run_async : S → Req → Option (AsyncHandler S Req) → S × List (ℕ × Result Resp)
  run_async s req none = (s, [])
  run_async s req (some handler) = (handler s req, [])

  abbrev pub dispatch : S → Mail Req → S × List (ℕ × Result Resp)
  dispatch s (sync_mail id t req) = run_sync s id req (handler_of t h.sync_handlers)
  dispatch s (async_mail t req) = run_async s req (handler_of t h.async_handlers)

  take_mail : Actor S Req Resp → List (Mail Req) → Actor S Req Resp
  take_mail a [] = a
  take_mail a (m ∷ box) =
      let (s, results) = dispatch a.state m in
      record a {
        state = ticks h.tick_fns s;
        box = box;
        results = a.results ++ results;
        log = a.log ++ (took m ∷ []);
      }

  -- A post to a full box blocks, and a case of the select that is not ready is not taken: nothing
  -- changes. After the loop's end there are no turns.
  unfoldable pub step : Actor S Req Resp → Action Req → Actor S Req Resp
  unfolding take_mail
  step a (post m) =
      if ltb (length a.box) mail_max_count
      then record a { box = a.box ++ (m ∷ []); posted = a.posted ++ (m ∷ []) }
      else a
  step a close = if a.closed then record a { crashed = true } else record a { closed = true }
  step a on_mail = if a.stopped then a else take_mail a a.box
  step a on_ticker =
      if a.stopped
      then a
      else record a { state = ticks h.tick_fns a.state; log = a.log ++ (ticked ∷ []) }
  step a on_close =
      if a.closed
      then (if a.stopped then a else record a {
        state = close_state a.state;
        stopped = true;
        log = a.log ++ (shut_down ∷ []);
      })
      else a

  unfoldable pub steps : Actor S Req Resp → List (Action Req) → Actor S Req Resp
  unfolding step
  steps a [] = a
  steps a (act ∷ actions) = steps (step a act) actions

-- `NewActorGroutine`, past the registration.
abbrev pub new_actor : {S Req Resp : Type 0} → S → Actor S Req Resp
new_actor s = record {
  state = s;
  box = [];
  closed = false;
  stopped = false;
  crashed = false;
  results = [];
  posted = [];
  log = [];
}
