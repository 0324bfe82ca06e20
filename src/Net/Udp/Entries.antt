-- ===== src/Net/Udp/Entries.antt =====
-- The map of sessions of udp_server.go, entry by entry.
use gotu.Base.{
  ℕ, Bool, ◌≡◌, refl, sym, ap, ◌∙◌, subst, false, Option, none, some, List, [], ◌∷◌, if◌then◌else◌,
  arith, Bool-cases, inl, inr, true_ne_false, if_both, if_either,
}
use gotu.Net.Session.{Session}
use gotu.Net.Udp.{get_session, add_session, del_session, checked, check_sessions}
use Prim.Native.String.{String}
use text.Mathlib.Text.{◌==◌}
use text.Mathlib.TextPositions.{eq_refl}
use text.Mathlib.TextEquality.{eq_iff}

==_sym_false : (a b : String) → (a == b) ≡ false → (b == a) ≡ false
==_sym_false a b h = elim (Bool-cases (b == a)) [
  | inr other ↦ other
  | inl same ↦
      absurd (true_ne_false (sym (eq_refl a) ∙ ap (λ x. a == x) (sym ((eq_iff b a).0 same)) ∙ h))
]

module _ {S : Type 0} where
  -- No two entries of the map have one address, and no session has crashed.
  abbrev pub IsSound : List (String × Session S) → Type 0
  IsSound [] = Unit
  IsSound ((k, s) ∷ sessions) =
      (get_session k sessions ≡ none) × (s.crashed ≡ false) × IsSound sessions

  pub get-IsSound :
      (id : String) (s : Session S) (m : List (String × Session S))
      → IsSound m
      → get_session id m ≡ some s
      → s.crashed ≡ false
  unfolding get_session
  get-IsSound id s [] u g = cc
  get-IsSound id s ((k, t) ∷ m) (fresh, calm, u) g = elim (Bool-cases (k == id)) [
    | inl same ↦
        ap crashed_of (sym (sym (ap (λ b. if b then some t else get_session id m) same) ∙ g)) ∙ calm
    | inr other ↦
        get-IsSound id s m u (sym (ap (λ b. if b then some t else get_session id m) other) ∙ g)
  ]
    where
      crashed_of : Option (Session S) → Bool
      crashed_of none = false
      crashed_of (some t) = t.crashed

  get-add :
      (id j : String) (s : Session S) (m : List (String × Session S))
      → get_session j (add_session id s m) ≡ (if id == j then some s else get_session j m)
  unfolding get_session add_session
  get-add id j s [] = refl
  get-add id j s ((k, t) ∷ m) =
      ground (arith, eq_iff id j, eq_iff k id, eq_iff k j, get-add id j s m)

  abbrev pub change : (Session S → Session S) → Option (Session S) → Option (Session S)
  change f none = none
  change f (some s) = some (f s)

  pub get-check :
      (timeout now : ℕ) (j : String) (m : List (String × Session S))
      → get_session j (check_sessions timeout now m)
        ≡ change (checked timeout now) (get_session j m)
  unfolding get_session check_sessions
  get-check timeout now j [] = refl
  get-check timeout now j ((k, t) ∷ m) = elim (Bool-cases (k == j)) [
    | inl same ↦ ground (arith, same)
    | inr other ↦ ground (arith, other, get-check timeout now j m)
  ]

  pub get-del :
      (id j : String) (m : List (String × Session S))
      → get_session j (del_session id m) ≡ (if id == j then none else get_session j m)
  unfolding get_session del_session
  get-del id j [] = if_both (λ (x : Option (Session S)). none ≡ x) (id == j) refl refl
  get-del id j ((k, t) ∷ m) = ground (arith, eq_iff id j, eq_iff k id, eq_iff k j, get-del id j m)

  pub add-IsSound :
      (id : String) (s : Session S) (m : List (String × Session S))
      → s.crashed ≡ false
      → IsSound m
      → IsSound (add_session id s m)
  unfolding get_session add_session
  add-IsSound id s [] c u = (refl, c, tt)
  add-IsSound id s ((k, t) ∷ m) c (fresh, calm, u) =
      if_either IsSound (k == id) (λ same. (fresh, c, u))
        (λ other. (
          get-add id k s m
              ∙ ap (λ b. if b then some s else get_session k m) (==_sym_false k id other)
              ∙ fresh,
          calm,
          add-IsSound id s m c u,
        ))

  pub check-IsSound :
      (timeout now : ℕ) (m : List (String × Session S))
      → IsSound m
      → IsSound (check_sessions timeout now m)
  unfolding check_sessions
  check-IsSound timeout now [] u = tt
  check-IsSound timeout now ((k, t) ∷ m) (fresh, calm, u) = (
    get-check timeout now k m ∙ ap (change (checked timeout now)) fresh,
    calm,
    check-IsSound timeout now m u,
  )

  pub del-IsSound :
      (id : String) (m : List (String × Session S)) → IsSound m → IsSound (del_session id m)
  unfolding del_session
  del-IsSound id [] u = tt
  del-IsSound id ((k, t) ∷ m) (fresh, calm, u) = if_both IsSound (k == id) (del-IsSound id m u) (
    get-del id k m ∙ if_either (λ x. x ≡ none) (id == k) (λ same. refl) (λ other. fresh),
    calm,
    del-IsSound id m u,
  )

  -- After an entry is set as `step` says, every entry is as `step` says for its address.
  pub own_entry :
      (step : String → Option (Session S) → Option (Session S)) (id j : String) (t : Session S)
      (m : List (String × Session S))
      → some t ≡ step j (get_session j m)
      → get_session id (add_session j t m)
        ≡ (if j == id then step id (get_session id m) else get_session id m)
  own_entry step id j t m h =
      get-add j id t m
      ∙ if_either (λ x. x ≡ (if j == id then step id (get_session id m) else get_session id m))
          (j == id)
          (λ same.
            subst (λ a. some t ≡ step a (get_session a m)) ((eq_iff j id).0 same) h
            ∙ sym (ap (λ b. if b then step id (get_session id m) else get_session id m) same))
          (λ other.
            sym (ap (λ b. if b then step id (get_session id m) else get_session id m) other))
