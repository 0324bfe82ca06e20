-- ===== src/Actor/Loop/Drained.antt =====
-- The logic loop (actor_groutine.go) through all mails that wait.
use gotu.Base.{
  ℕ, zero, suc, ◌≡◌, refl, sym, ap, ◌∙◌, false, List, [], ◌∷◌, ◌++◌, length, append-nil,
  append_assoc, if◌then◌else◌,
}
use gotu.Wire.{Result}
use gotu.Actor.{ActorHandler}
use gotu.Actor.Loop.{Mail, Actor, on_mail, ticks, dispatch, take_mail, step, steps}

abbrev pub again : {A : Type 0} → ℕ → A → List A
again zero a = []
again (suc n) a = a ∷ again n a

module _ {S Req Resp : Type 0} (h : ActorHandler S Req Resp) (close_state : S → S) where
  -- The state after the mails, each followed by a tick.
  abbrev pub settle : S → List (Mail Req) → S
  settle s [] = s
  settle s (m ∷ box) = settle (ticks h close_state h.tick_fns (dispatch h close_state s m).0) box

  -- The results of the mails.
  abbrev pub replies : S → List (Mail Req) → List (ℕ × Result Resp)
  replies s [] = []
  replies s (m ∷ box) =
      (dispatch h close_state s m).1
      ++ replies (ticks h close_state h.tick_fns (dispatch h close_state s m).0) box

  -- The loop takes all that waits.
  pub drained :
      (box : List (Mail Req)) (a : Actor S Req Resp)
      → a.stopped ≡ false
      → a.box ≡ box
      → (steps h close_state a (again (length box) on_mail)).results
        ≡ a.results ++ replies a.state box
  unfolding steps step take_mail
  drained [] a open_loop e = sym (append-nil a.results)
  drained (m ∷ box) a open_loop e =
      let (s, results) = dispatch h close_state a.state m in
      let a' : Actor S Req Resp = take_mail h close_state a (m ∷ box) in
      ap
        (λ b.
          (steps h close_state (if b then a else take_mail h close_state a a.box)
            (again (length box) on_mail)).results)
        open_loop
      ∙ (ap
            (λ q.
              (steps h close_state (take_mail h close_state a q)
                (again (length box) on_mail)).results)
            e
          ∙ (drained box a' open_loop refl ∙ append_assoc a.results results (replies a'.state box)))
