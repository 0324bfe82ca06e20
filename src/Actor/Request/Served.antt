-- ===== src/Actor/Request/Served.antt =====
-- A request to an actor (actor_groutine.go, handler.go) up to its result.
use gotu.Base.{
  request_mistyped, handler_nil, ℕ, ◌<◌, ◌≡◌, refl, sym, ap, ◌∙◌, Bool, true, false, ◌||◌, Option,
  none, some, List, [], ◌∷◌, ◌++◌, ◌==◌, length, append_assoc, if◌then◌else◌, lt→ltb, ==_refl,
  arith, true_ne_false,
}
use gotu.Wire.{Result, ok, err}
use gotu.Actor.{SyncHandler, ActorHandler, handler_of}
use gotu.Actor.Loop.{
  Mail, sync_mail, async_mail, Actor, post, on_mail, ticks, dispatch, run_sync, run_async, step,
  steps, mail_max_count,
}
use gotu.Actor.Loop.Drained.{again, settle, replies, drained}
use gotu.Actor.Request.{Any, sync_handler_wrap, result_of, await, typed, typed_reply, sync_request}

-- Whether a mail waits for a result on the channel.
abbrev pub is_awaited : {Req : Type 0} → ℕ → List (Mail Req) → Bool
is_awaited id [] = false
is_awaited id (sync_mail i t req ∷ box) = (i == id) || is_awaited id box
is_awaited id (async_mail t req ∷ box) = is_awaited id box

result_of-append :
    {R : Type 0} (id : ℕ) (xs ys : List (ℕ × R))
    → result_of id xs ≡ none
    → result_of id (xs ++ ys) ≡ result_of id ys
result_of-append id [] ys h = refl
result_of-append id ((i, r) ∷ xs) ys h = ground (arith, h, result_of-append id xs ys)

skip : {R : Type 0} (b : Bool) (r : R) → b ≡ false → (if b then some r else none) ≡ none
skip b r ne = ap (λ c. if c then some r else none) ne

not_first : (a b : Bool) → (a || b) ≡ false → (a ≡ false) × (b ≡ false)
not_first true b e = absurd (true_ne_false e)
not_first false b e = (refl, e)

module _ {S Req Resp : Type 0} (h : ActorHandler S Req Resp) (close_state : S → S) where
  replies-append :
      (s : S) (xs ys : List (Mail Req))
      → replies h close_state s (xs ++ ys)
        ≡ replies h close_state s xs ++ replies h close_state (settle h close_state s xs) ys
  replies-append s [] ys = refl
  replies-append s (m ∷ xs) ys =
      let s' = ticks h close_state h.tick_fns (dispatch h close_state s m).0 in
      ap (λ r. (dispatch h close_state s m).1 ++ r) (replies-append s' xs ys)
      ∙ sym (
          append_assoc (dispatch h close_state s m).1 (replies h close_state s' xs)
            (replies h close_state (settle h close_state s' xs) ys))

  run_sync_lem :
      (s : S) (id i : ℕ) (req : Req) (o : Option (SyncHandler S Req Resp))
      → (i == id) ≡ false
      → result_of id (run_sync h close_state s i req o).1 ≡ none
  run_sync_lem s id i req none ne = skip (i == id) (err handler_nil) ne
  run_sync_lem s id i req (some f) ne = skip (i == id) (f s req).1 ne

  run_async_lem :
      (s : S) (id : ℕ) (req : Req) (o : Option _)
      → result_of id (run_async h close_state s req o).1 ≡ none
  run_async_lem s id req none = refl
  run_async_lem s id req (some f) = refl

  dispatch_lem :
      (s : S) (id : ℕ) (m : Mail Req) (box : List (Mail Req))
      → is_awaited id (m ∷ box) ≡ false
      → (result_of id (dispatch h close_state s m).1 ≡ none) × (is_awaited id box ≡ false)
  dispatch_lem s id (sync_mail i t req) box e =
      let (ne, rest) = not_first (i == id) (is_awaited id box) e in
      (run_sync_lem s id i req (handler_of t h.sync_handlers) ne, rest)
  dispatch_lem s id (async_mail t req) box e =
      (run_async_lem s id req (handler_of t h.async_handlers), e)

  replies_lem :
      (s : S) (id : ℕ) (box : List (Mail Req))
      → is_awaited id box ≡ false
      → result_of id (replies h close_state s box) ≡ none
  replies_lem s id [] e = refl
  replies_lem s id (m ∷ box) e =
      let (here, rest) = dispatch_lem s id m box e in
      result_of-append id (dispatch h close_state s m).1 _ here
      ∙ replies_lem (ticks h close_state h.tick_fns (dispatch h close_state s m).0) id box rest

  replies-last :
      (s : S) (id t : ℕ) (req : Req) (box : List (Mail Req)) (f : SyncHandler S Req Resp)
      → is_awaited id box ≡ false
      → handler_of t h.sync_handlers ≡ some f
      → result_of id (replies h close_state s (box ++ (sync_mail id t req ∷ [])))
        ≡ some (f (settle h close_state s box) req).1
  replies-last s id t req box f fresh found =
      let s' = settle h close_state s box in
      ap (result_of id) (replies-append s box (sync_mail id t req ∷ []))
      ∙ (result_of-append id (replies h close_state s box) _ (replies_lem s id box fresh)
          ∙ (ap (λ o. result_of id ((run_sync h close_state s' id req o).1 ++ [])) found
              ∙ ap (λ b. if b then some (f s' req).1 else none) (==_refl id)))

  posted :
      (a : Actor S Req Resp) (m : Mail Req)
      → length a.box < mail_max_count
      → step h close_state a (post m)
        ≡ record a { box = a.box ++ (m ∷ []); posted = a.posted ++ (m ∷ []) }
  unfolding step
  posted a m room =
      ap (λ b. if b then record a { box = a.box ++ (m ∷ []); posted = a.posted ++ (m ∷ []) } else a)
        (lt→ltb (length a.box) mail_max_count room)

  -- The result that a new synchronous mail gets from the loop.
  served :
      (a : Actor S Req Resp) (id t : ℕ) (req : Req) (f : SyncHandler S Req Resp)
      → a.stopped ≡ false
      → length a.box < mail_max_count
      → is_awaited id a.box ≡ false
      → result_of id a.results ≡ none
      → handler_of t h.sync_handlers ≡ some f
      → result_of id
          (steps h close_state a (
            post (sync_mail id t req)
            ∷ again (length (a.box ++ (sync_mail id t req ∷ []))) on_mail)).results
        ≡ some (f (settle h close_state a.state a.box) req).1
  unfolding steps
  served a id t req f open_loop room fresh unused found =
      let box = a.box ++ (sync_mail id t req ∷ []) in
      ap (λ b. result_of id (steps h close_state b (again (length box) on_mail)).results)
        (posted a (sync_mail id t req) room)
      ∙ (ap (result_of id) (
            drained h close_state box
              (record a { box = box; posted = a.posted ++ (sync_mail id t req ∷ []) }) open_loop
              refl)
          ∙ (result_of-append id a.results _ unused
              ∙ replies-last a.state id t req a.box f fresh found))

module _ {S V : Type 0} (h : ActorHandler S (Any V) (Any V)) (close_state : S → S) where
  -- A SyncRequest to a running actor whose box has room, for a type that the actor serves by a function
  -- in SyncHandlerWrap, where the loop's next turns are the mails that wait and its own, with no turn of
  -- the ticker, no other post and no close in between, and its context is not done: it returns what the
  -- function answers, in the state that those mails and the tick functions behind each of them left, if
  -- the answer has the type that is asked for.
  pub sync_request-served :
      (a : Actor S (Any V) (Any V)) (id t u : ℕ) (v : V) (fn : S → V → S × Result (Any V))
      (prefer : Bool)
      → a.stopped ≡ false
      → length a.box < mail_max_count
      → is_awaited id a.box ≡ false
      → result_of id a.results ≡ none
      → handler_of u h.sync_handlers ≡ some (sync_handler_wrap u fn)
      → sync_request h close_state
          (ok a)
          id
          (u, v)
          t
          (again (length (a.box ++ (sync_mail id u (u, v) ∷ []))) on_mail)
          false
          prefer
        ≡ some (typed t (fn (settle h close_state a.state a.box) v).1)
  unfolding sync_request await sync_handler_wrap
  sync_request-served a id t u v fn prefer open_loop room fresh unused found =
      let s = settle h close_state a.state a.box in
      ap (typed_reply h close_state t) (
        served h close_state a id u (u, v) (sync_handler_wrap u fn) open_loop room fresh unused
          found)
      ∙ ap (λ b. some (typed t (if b then fn s v else (s, err (request_mistyped u u))).1))
          (==_refl u)
