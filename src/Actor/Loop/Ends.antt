-- ===== src/Actor/Loop/Ends.antt =====
-- The close of an actor (actor_groutine.go) and the turn of its loop that takes it.
use gotu.Base.{
  ◌≡◌, refl, sym, subst, Bool, true, false, List, [], ◌∷◌, ◌++◌, ltb, length, if◌then◌else◌,
  if_both,
}
use gotu.Actor.{ActorHandler}
use gotu.Actor.Loop
use gotu.Actor.Loop.{
  Mail, Actor, Action, post, close, on_mail, on_ticker, on_close, take_mail, step, steps,
  mail_max_count,
}

module _ {S Req Resp : Type 0} (h : ActorHandler S Req Resp) (close_state : S → S) where
  abbrev IsShut : Actor S Req Resp → Type 0
  IsShut a = a.closed ≡ true

  abbrev IsStopped : Actor S Req Resp → Type 0
  IsStopped a = a.stopped ≡ true

  take_mail-IsShut :
      (a : Actor S Req Resp) (box : List (Mail Req))
      → IsShut a
      → IsShut (take_mail h close_state a box)
  unfolding take_mail
  take_mail-IsShut a [] k = k
  take_mail-IsShut a (m ∷ box) k = k

  step-IsShut :
      (a : Actor S Req Resp) (act : Action Req) → IsShut a → IsShut (step h close_state a act)
  unfolding step
  step-IsShut a (post m) k = if_both IsShut (ltb (length a.box) mail_max_count) k k
  step-IsShut a close k = if_both IsShut a.closed k refl
  step-IsShut a on_mail k = if_both IsShut a.stopped k (take_mail-IsShut a a.box k)
  step-IsShut a on_ticker k = if_both IsShut a.stopped k k
  step-IsShut a on_close k = if_both IsShut a.closed (if_both IsShut a.stopped k k) k

  steps-IsShut :
      (a : Actor S Req Resp) (actions : List (Action Req))
      → IsShut a
      → IsShut (steps h close_state a actions)
  unfolding steps
  steps-IsShut a [] k = k
  steps-IsShut a (act ∷ actions) k =
      steps-IsShut (step h close_state a act) actions (step-IsShut a act k)

  on_close-IsStopped : (a : Actor S Req Resp) → IsShut a → IsStopped (step h close_state a on_close)
  unfolding step
  on_close-IsStopped a k =
      subst
        (λ b. IsStopped (
          if b
          then (if a.stopped then a else record a {
            state = close_state a.state;
            stopped = true;
            log = a.log ++ (Loop.shut_down ∷ []);
          })
          else a))
        (sym k) (ended a.stopped refl)
    where
      ended :
          (b : Bool)
          → a.stopped ≡ b
          → IsStopped (
              if b then a else record a {
                state = close_state a.state;
                stopped = true;
                log = a.log ++ (Loop.shut_down ∷ []);
              })
      ended true e = e
      ended false e = refl

  close-IsShut : (a : Actor S Req Resp) → IsShut (step h close_state a close)
  unfolding step
  close-IsShut a = closes a.closed refl
    where
      closes :
          (b : Bool)
          → a.closed ≡ b
          → IsShut (if b then record a { crashed = true } else record a { closed = true })
      closes true e = e
      closes false e = refl

  -- An actor that is closed stops with the turn that takes the close, whatever its loop did before.
  pub closed_stops :
      (a : Actor S Req Resp) (turns : List (Action Req))
      → (step h close_state
          (steps h close_state (step h close_state a close) turns)
          on_close).stopped
        ≡ true
  closed_stops a turns =
      on_close-IsStopped (steps h close_state (step h close_state a close) turns)
        (steps-IsShut (step h close_state a close) turns (close-IsShut a))
