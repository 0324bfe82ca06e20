-- ===== src/Actor/Request/Closed.antt =====
-- CloseAll (manager.go) over the whole table of actors.
use gotu.Base.{
  ◌≡◌, refl, sym, ap, ◌∙◌, subst, Bool, true, false, not, ◌&&◌, Option, none, some, List, [], ◌∷◌,
  if◌then◌else◌, both_true,
}
use gotu.Actor.{ActorHandler, Actors, named, deregister_actor}
use gotu.Actor.Loop.{Actor, Action, close, on_close, step, steps}
use gotu.Actor.Loop.Ends.{closed_stops}
use gotu.Actor.Request.{Any, close_one, close_all}
use gotu.Actor.Tables.{deregister-added}

-- No two actors have one name.
abbrev pub HasOne : {A : Type 0} → Actors A → Type 0
HasOne [] = Unit
HasOne ((name, a) ∷ actors) = (named name actors ≡ none) × HasOne actors

module _ {S V : Type 0} where
  abbrev pub all_open : Actors (Actor S (Any V) (Any V)) → Bool
  all_open [] = true
  all_open ((name, a) ∷ actors) = not a.closed && all_open actors

  abbrev pub all_stopped : List (Actor S (Any V) (Any V)) → Bool
  all_stopped [] = true
  all_stopped (a ∷ actors) = a.stopped && all_stopped actors

  -- The table is empty, and the actors that left it have stopped.
  abbrev pub IsEmptied :
      Option (Actors (Actor S (Any V) (Any V)) × List (Actor S (Any V) (Any V))) → Type 0
  IsEmptied none = ⊥
  IsEmptied (some (rest, closed)) = (rest ≡ []) × (all_stopped closed ≡ true)

module _ {S V : Type 0} (h : ActorHandler S (Any V) (Any V)) (close_state : S → S) where
  is_open : (b : Bool) → not b ≡ true → b ≡ false
  is_open true e = sym e
  is_open false e = refl

  close_one_lem :
      (turns : List (Action (Any V))) (a : Actor S (Any V) (Any V))
      → a.closed ≡ false
      → close_one h close_state turns a
        ≡ some
            (step h close_state (steps h close_state (step h close_state a close) turns) on_close)
  unfolding close_one
  close_one_lem turns a e =
      ap
        (λ b.
          if b
          then none
          else some (
              step h close_state (steps h close_state (step h close_state a close) turns) on_close))
        e

  one_more :
      (a : Actor S (Any V) (Any V))
      (o : Option (Actors (Actor S (Any V) (Any V)) × List (Actor S (Any V) (Any V))))
      → a.stopped ≡ true
      → IsEmptied o
      → IsEmptied (elim o [ none ↦ none | some (rest, closed) ↦ some (rest, a ∷ closed) ])
  one_more a none k impossible = impossible
  one_more a (some (rest, closed)) k (e, f) = (e, ap (λ b. b && all_stopped closed) k ∙ f)

  -- CloseAll closes every actor of a table in which none is closed yet: it does not panic, every actor
  -- stops, whatever turns its loop makes before it takes the close, and the table is empty behind it.
  pub close_all-IsEmptied :
      (turns : List (Action (Any V))) (table : Actors (Actor S (Any V) (Any V)))
      → HasOne table
      → all_open table ≡ true
      → IsEmptied (close_all h close_state turns table table)
  unfolding close_all
  close_all-IsEmptied turns [] u o = (refl, refl)
  close_all-IsEmptied turns ((name, a) ∷ table) (fresh, u) o =
      let (here, rest) = both_true (not a.closed) (all_open table) o in
      subst
        (λ c. IsEmptied (elim c [
          | none ↦ none
          | some a' ↦
              elim (close_all h close_state turns table
                (deregister_actor name ((name, a) ∷ table))) [
                  | none ↦ none
                  | some (r, closed) ↦ some (r, a' ∷ closed)
                ]
        ]))
        (sym (close_one_lem turns a (is_open a.closed here)))
        (one_more
          (step h close_state (steps h close_state (step h close_state a close) turns) on_close)
          (close_all h close_state turns table (deregister_actor name ((name, a) ∷ table)))
          (closed_stops h close_state a turns)
          (subst (λ t. IsEmptied (close_all h close_state turns table t))
            (sym (deregister-added name a table fresh)) (close_all-IsEmptied turns table u rest)))
