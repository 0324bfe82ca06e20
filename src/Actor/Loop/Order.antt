-- ===== src/Actor/Loop/Order.antt =====
-- The turns of the logic loop (actor_groutine.go) one after another.
use gotu.Base.{
  ℕ, ◌≤◌, ◌≡◌, refl, sym, ap, ap₂, ◌∙◌, subst, Bool, true, Option, none, some, List, [], ◌∷◌, ◌++◌,
  length, arith, append_assoc, append-nil, length-append, Bool-cases, inl, inr, ltb, ltb→lt,
  if◌then◌else◌, if_both,
}
use gotu.Actor.{ActorHandler, handler_of, SyncHandler, AsyncHandler}
use gotu.Actor.Loop.{
  Mail, sync_mail, async_mail, Event, took, ticked, shut_down, Actor, Action, post, close, on_mail,
  on_ticker, on_close, ticks, dispatch, take_mail, step, steps, new_actor, mail_max_count, run_sync,
  run_async,
}

abbrev pub mails_of : {Req : Type 0} → List (Event Req) → List (Mail Req)
mails_of [] = []
mails_of (took m ∷ log) = m ∷ mails_of log
mails_of (ticked ∷ log) = mails_of log
mails_of (shut_down ∷ log) = mails_of log

-- The numbers of the result channels of the synchronous mails.
abbrev pub awaited : {Req : Type 0} → List (Mail Req) → List ℕ
awaited [] = []
awaited (sync_mail id t req ∷ mails) = id ∷ awaited mails
awaited (async_mail t req ∷ mails) = awaited mails

abbrev pub ids : {R : Type 0} → List (ℕ × R) → List ℕ
ids [] = []
ids ((id, r) ∷ results) = id ∷ ids results

ids-append : {R : Type 0} (xs ys : List (ℕ × R)) → ids (xs ++ ys) ≡ ids xs ++ ids ys
ids-append [] ys = refl
ids-append ((id, r) ∷ xs) ys = ap (λ t. id ∷ t) (ids-append xs ys)

awaited-append :
    {Req : Type 0} (xs ys : List (Mail Req)) → awaited (xs ++ ys) ≡ awaited xs ++ awaited ys
awaited-append [] ys = refl
awaited-append (sync_mail id t req ∷ xs) ys = ap (λ t. id ∷ t) (awaited-append xs ys)
awaited-append (async_mail t req ∷ xs) ys = awaited-append xs ys

mails_of-append :
    {Req : Type 0} (xs ys : List (Event Req)) → mails_of (xs ++ ys) ≡ mails_of xs ++ mails_of ys
mails_of-append [] ys = refl
mails_of-append (took m ∷ xs) ys = ap (λ t. m ∷ t) (mails_of-append xs ys)
mails_of-append (ticked ∷ xs) ys = mails_of-append xs ys
mails_of-append (shut_down ∷ xs) ys = mails_of-append xs ys

module _ {S Req Resp : Type 0} (h : ActorHandler S Req Resp) (close_state : S → S) where
  -- One turn on the state alone.
  abbrev pub play : Event Req → S → S
  play (took m) s = ticks h close_state h.tick_fns (dispatch h close_state s m).0
  play ticked s = ticks h close_state h.tick_fns s
  play shut_down s = close_state s

  abbrev pub replay : List (Event Req) → S → S
  replay [] s = s
  replay (e ∷ log) s = replay log (play e s)

  replay-snoc :
      (log : List (Event Req)) (e : Event Req) (s : S)
      → replay (log ++ (e ∷ [])) s ≡ play e (replay log s)
  replay-snoc [] e s = refl
  replay-snoc (f ∷ log) e s = replay-snoc log e (play f s)

  -- The state is what the logged turns make of `s` one by one; the mails that were taken and those in
  -- the box are the posted ones in order; the results that were sent are one for each synchronous mail
  -- that was taken, in order; and the box holds at most 100 mails.
  abbrev pub IsSerial : S → Actor S Req Resp → Type 0
  IsSerial s a =
      (a.state ≡ replay a.log s)
      × (mails_of a.log ++ a.box ≡ a.posted)
      × (ids a.results ≡ awaited (mails_of a.log))
      × (length a.box ≤ mail_max_count)

  run_sync-ids :
      (s : S) (id : ℕ) (req : Req) (o : Option (SyncHandler S Req Resp))
      → ids (run_sync h close_state s id req o).1 ≡ id ∷ []
  run_sync-ids s id req none = refl
  run_sync-ids s id req (some handler) = refl

  run_async-ids :
      (s : S) (req : Req) (o : Option (AsyncHandler S Req))
      → ids (run_async h close_state s req o).1 ≡ []
  run_async-ids s req none = refl
  run_async-ids s req (some handler) = refl

  dispatch-ids : (s : S) (m : Mail Req) → ids (dispatch h close_state s m).1 ≡ awaited (m ∷ [])
  dispatch-ids s (sync_mail id t req) = run_sync-ids s id req (handler_of t h.sync_handlers)
  dispatch-ids s (async_mail t req) = run_async-ids s req (handler_of t h.async_handlers)

  take_mail-IsSerial :
      (s : S) (a : Actor S Req Resp) (box : List (Mail Req))
      → IsSerial s (record a { box = box })
      → IsSerial s (take_mail h close_state (record a { box = box }) box)
  unfolding take_mail
  take_mail-IsSerial s a [] i = i
  take_mail-IsSerial s a (m ∷ box) (state, mails, answers, room) =
      let log : mails_of (a.log ++ (took m ∷ [])) ≡ mails_of a.log ++ (m ∷ []) =
        mails_of-append a.log (took m ∷ []) in
      (
        ap (play (took m)) state ∙ sym (replay-snoc a.log (took m) s),
        ap (λ l. l ++ box) log ∙ (append_assoc (mails_of a.log) (m ∷ []) box ∙ mails),
        ids-append a.results (dispatch h close_state a.state m).1
            ∙ (ap₂ (λ x y. x ++ y) answers (dispatch-ids a.state m)
                ∙ (sym (awaited-append (mails_of a.log) (m ∷ [])) ∙ ap awaited (sym log))),
        omega (arith, room),
      )

  -- A turn without a mail.
  idle-IsSerial :
      (s : S) (a : Actor S Req Resp) (e : Event Req) (stopped : Bool)
      → mails_of (e ∷ []) ≡ []
      → IsSerial s a
      → IsSerial s (record a { state = play e a.state; stopped = stopped; log = a.log ++ (e ∷ []) })
  idle-IsSerial s a e stopped none_taken (state, mails, answers, room) =
      let log : mails_of (a.log ++ (e ∷ [])) ≡ mails_of a.log =
        mails_of-append a.log (e ∷ [])
        ∙ (ap (λ l. mails_of a.log ++ l) none_taken ∙ append-nil (mails_of a.log)) in
      (
        ap (play e) state ∙ sym (replay-snoc a.log e s),
        ap (λ l. l ++ a.box) log ∙ mails,
        answers ∙ ap awaited (sym log),
        room,
      )

  step-IsSerial :
      (s : S) (a : Actor S Req Resp) (act : Action Req)
      → IsSerial s a
      → IsSerial s (step h close_state a act)
  unfolding step
  step-IsSerial s a (post m) (state, mails, answers, room) =
      elim (Bool-cases (ltb (length a.box) mail_max_count)) [
        | inl e ↦ rw e (
          state,
          sym (append_assoc (mails_of a.log) a.box (m ∷ [])) ∙ ap (λ l. l ++ (m ∷ [])) mails,
          answers,
          omega (arith, ltb→lt _ _ e, length-append a.box (m ∷ [])),
        )
        | inr e ↦ rw e (state, mails, answers, room)
      ]
  step-IsSerial s a close i = if_both (IsSerial s) a.closed i i
  step-IsSerial s a on_mail i = if_both (IsSerial s) a.stopped i (take_mail-IsSerial s a a.box i)
  step-IsSerial s a on_ticker i =
      if_both (IsSerial s) a.stopped i (idle-IsSerial s a ticked a.stopped refl i)
  step-IsSerial s a on_close i =
      if_both (IsSerial s) a.closed
        (if_both (IsSerial s) a.stopped i (idle-IsSerial s a shut_down true refl i)) i

  steps-IsSerial_from :
      (s : S) (a : Actor S Req Resp) (actions : List (Action Req))
      → IsSerial s a
      → IsSerial s (steps h close_state a actions)
  unfolding steps
  steps-IsSerial_from s a [] i = i
  steps-IsSerial_from s a (act ∷ actions) i =
      steps-IsSerial_from s (step h close_state a act) actions (step-IsSerial s a act i)

  -- Whatever posts, closes and turns of the select come in whatever order, the actor works serially:
  -- its state is what the turns of its loop make of the first state one after another, mails are taken
  -- in the order in which they were posted and none twice, each synchronous mail that was taken has
  -- been sent exactly one result, and at most 100 mails wait.
  pub steps-IsSerial :
      (s : S) (actions : List (Action Req)) → IsSerial s (steps h close_state (new_actor s) actions)
  steps-IsSerial s actions =
      steps-IsSerial_from s (new_actor s) actions (refl, refl, refl, omega arith)

  abbrev IsStill : Actor S Req Resp → Actor S Req Resp → Type 0
  IsStill a b = (b.stopped ≡ true) × (b.results ≡ a.results) × (b.state ≡ a.state)

  step-stopped :
      (a : Actor S Req Resp) (act : Action Req)
      → a.stopped ≡ true
      → IsStill a (step h close_state a act)
  unfolding step
  step-stopped a (post m) e =
      if_both (IsStill a) (ltb (length a.box) mail_max_count) (e, refl, refl) (e, refl, refl)
  step-stopped a close e = if_both (IsStill a) a.closed (e, refl, refl) (e, refl, refl)
  step-stopped a on_mail e =
      subst (λ b. IsStill a (if b then a else take_mail h close_state a a.box)) (sym e)
        (e, refl, refl)
  step-stopped a on_ticker e =
      subst
        (λ b. IsStill a (
          if b then a else record a {
            state = ticks h close_state h.tick_fns a.state;
            log = a.log ++ (ticked ∷ []);
          }))
        (sym e) (e, refl, refl)
  step-stopped a on_close e =
      if_both (IsStill a) a.closed
        (subst
          (λ b. IsStill a (
            if b then a else record a {
              state = close_state a.state;
              stopped = true;
              log = a.log ++ (shut_down ∷ []);
            }))
          (sym e) (e, refl, refl))
        (e, refl, refl)

  -- After the end of the loop no result is sent any more, to no mail that waits or comes.
  pub steps-stopped :
      (a : Actor S Req Resp) (actions : List (Action Req))
      → a.stopped ≡ true
      → ((steps h close_state a actions).results ≡ a.results)
        × ((steps h close_state a actions).state ≡ a.state)
  unfolding steps
  steps-stopped a [] e = (refl, refl)
  steps-stopped a (act ∷ actions) e =
      let (still, results, state) = step-stopped a act e in
      let (results', state') = steps-stopped (step h close_state a act) actions still in
      (results' ∙ results, state' ∙ state)
