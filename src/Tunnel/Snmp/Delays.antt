-- ===== src/Tunnel/Snmp/Delays.antt =====
-- The row of delays: what is summed, over what, and in which order.
use gotu.Base.{
  ℕ, zero, suc, ◌+◌, ◌*◌, ◌/◌, ◌-◌, ◌≤◌, ◌≡◌, refl, ap, ◌∙◌, List, [], ◌∷◌, ℤ, pos, pos_part,
  neg_part, ltb_ℤ, ltb, length, take, arith, Bool-cases, inl, inr, All, ltb→lt, not-ltb→le,
}
use gotu.Common.{◌+64◌, safe_division}
use gotu.Tunnel.Snmp.{
  TunSnmpBase, sort, Sums, sum_loop, no_sums, Values, values, insert_sorted, add_if,
}
use mathlib.Core.List.{Perm}
use mathlib.Core.List.Perm

abbrev pub ◌≤ℤ◌ : ℤ → ℤ → Type 0
◌≤ℤ◌ a b = pos_part a + neg_part b ≤ pos_part b + neg_part a

-- Each element is at most the next.
abbrev pub IsSorted : List ℤ → Type 0
IsSorted [] = Unit
IsSorted (x ∷ xs) = All (λ y. ◌≤ℤ◌ x y) xs × IsSorted xs

insert_sorted-All :
    (b x : ℤ) (xs : List ℤ)
    → ◌≤ℤ◌ b x
    → All (λ y. ◌≤ℤ◌ b y) xs
    → All (λ y. ◌≤ℤ◌ b y) (insert_sorted x xs)
insert_sorted-All b x [] h a = (h, tt)
insert_sorted-All b x (y ∷ ys) h a = elim (Bool-cases (ltb_ℤ y x)) [
  | inl e ↦ rw e (a.0, insert_sorted-All b x ys h a.1)
  | inr e ↦ rw e (h, a)
]

All-le_trans : (b x : ℤ) (xs : List ℤ) → ◌≤ℤ◌ b x → All (λ y. ◌≤ℤ◌ x y) xs → All (λ y. ◌≤ℤ◌ b y) xs
All-le_trans b x [] h a = tt
All-le_trans b x (y ∷ ys) h a = (omega (arith, a.0), All-le_trans b x ys h a.1)

insert_sorted-IsSorted : (x : ℤ) (xs : List ℤ) → IsSorted xs → IsSorted (insert_sorted x xs)
insert_sorted-IsSorted x [] s = (tt, tt)
insert_sorted-IsSorted x (y ∷ ys) s = elim (Bool-cases (ltb_ℤ y x)) [
  | inl e ↦
      rw e (
        insert_sorted-All y x ys (omega (arith, ltb→lt _ _ e)) s.0,
        insert_sorted-IsSorted x ys s.1,
      )
  | inr e ↦
      let le : ◌≤ℤ◌ x y = omega (arith, not-ltb→le _ _ e) in
      rw e ((le, All-le_trans x y ys le s.0), s)
]

sort-IsSorted : (xs : List ℤ) → IsSorted (sort xs)
sort-IsSorted [] = tt
sort-IsSorted (x ∷ xs) = insert_sorted-IsSorted x (sort xs) (sort-IsSorted xs)

insert_sorted-perm : (x : ℤ) (xs : List ℤ) → Perm (insert_sorted x xs) (x ∷ xs)
insert_sorted-perm x [] = Perm.refl (x ∷ [])
insert_sorted-perm x (y ∷ ys) = elim (Bool-cases (ltb_ℤ y x)) [
  | inl e ↦ rw e (Perm.trans (Perm.cons y (insert_sorted-perm x ys)) (Perm.swap x y ys))
  | inr e ↦ rw e (Perm.refl (x ∷ y ∷ ys))
]

pub sort-perm : (xs : List ℤ) → Perm (sort xs) xs
sort-perm [] = Perm.refl []
sort-perm (x ∷ xs) = Perm.trans (insert_sorted-perm x (sort xs)) (Perm.cons x (sort-perm xs))

-- The sum from the left, as the loop forms it.
abbrev pub sum64 : ℤ → List ℤ → ℤ
sum64 s [] = s
sum64 s (x ∷ xs) = sum64 (s +64 x) xs

take-step :
    (k i : ℕ) (s x : ℤ) (xs : List ℤ)
    → sum64 (add_if (ltb i k) s x) (take (k - suc i) xs) ≡ sum64 s (take (k - i) (x ∷ xs))
take-step k i s x xs = elim (Bool-cases (ltb i k)) [
  | inl e ↦ let split : k - i ≡ suc (k - suc i) = omega (arith, ltb→lt _ _ e) in rw (e, split)
  | inr e ↦
      let none_left : k - i ≡ 0 = omega (arith, not-ltb→le _ _ e) in
      let none_next : k - suc i ≡ 0 = omega (arith, not-ltb→le _ _ e) in
      rw (e, none_left, none_next)
]

take-nil : (n : ℕ) → take n (let none_left : List ℤ = [] in none_left) ≡ []
take-nil zero = refl
take-nil (suc n) = refl

-- The loop from index `i` adds to each sum the elements whose index is below that sum's count.
sum_loop_lem :
    (n i : ℕ) (xs : List ℤ) (s : Sums)
    → sum_loop n i xs s ≡ record {
      delay_100 = sum64 s.delay_100 (take (n - i) xs);
      delay_99 = sum64 s.delay_99 (take (n * 99 / 100 - i) xs);
      delay_95 = sum64 s.delay_95 (take (n * 95 / 100 - i) xs);
      delay_90 = sum64 s.delay_90 (take (n * 90 / 100 - i) xs);
    }
unfolding sum_loop
sum_loop_lem n i [] s = rw (
  take-nil (n - i),
  take-nil (n * 99 / 100 - i),
  take-nil (n * 95 / 100 - i),
  take-nil (n * 90 / 100 - i),
)
sum_loop_lem n i (x ∷ xs) s = sum_loop_lem n (suc i) xs _ ∙ λ j. record {
  delay_100 = take-step n i s.delay_100 x xs j;
  delay_99 = take-step (n * 99 / 100) i s.delay_99 x xs j;
  delay_95 = take-step (n * 95 / 100) i s.delay_95 x xs j;
  delay_90 = take-step (n * 90 / 100) i s.delay_90 x xs j;
}

-- The average of the `k` smallest delays, 0 where there is none.
abbrev pub average_of : ℕ → List ℤ → ℤ
average_of k xs = safe_division (sum64 (pos 0) (take k (sort xs))) k

averaged :
    (k : ℕ) (xs : List ℤ) {d : ℤ}
    → d ≡ sum64 (pos 0) (take (k - 0) (sort xs))
    → safe_division d k ≡ average_of k xs
averaged k xs h =
    let whole : k - 0 ≡ k = omega arith in
    ap (λ s. safe_division s k) (h ∙ ap (λ n. sum64 (pos 0) (take n (sort xs))) whole)

-- What a row computed from `b` shows.
abbrev pub ShowsAverages : TunSnmpBase → Values → Type 0
ShowsAverages b row =
    let n : ℕ = length b.proxy_latencys in
    (row.average_90 ≡ average_of (n * 90 / 100) b.proxy_latencys)
    × (row.average_95 ≡ average_of (n * 95 / 100) b.proxy_latencys)
    × (row.average_99 ≡ average_of (n * 99 / 100) b.proxy_latencys)
    × (row.average_100 ≡ average_of n b.proxy_latencys)
    × IsSorted row.counters.proxy_latencys
    × Perm row.counters.proxy_latencys b.proxy_latencys
    × (row.counters ≡ record b { proxy_latencys = row.counters.proxy_latencys })

length-insert_sorted : (x : ℤ) (xs : List ℤ) → length (insert_sorted x xs) ≡ suc (length xs)
length-insert_sorted x [] = refl
length-insert_sorted x (y ∷ ys) = ground (arith, length-insert_sorted x ys)

length-sort : (xs : List ℤ) → length (sort xs) ≡ length xs
length-sort [] = refl
length-sort (x ∷ xs) = length-insert_sorted x (sort xs) ∙ ap suc (length-sort xs)

-- The row shows the averages of the smallest 90, 95, 99 and 100 percent of the delays, each count
-- rounded down; computing it keeps the delays, in ascending order, and the other counters.
pub values-ShowsAverages : (b : TunSnmpBase) → ShowsAverages b (values b)
unfolding values
values-ShowsAverages b =
    let xs : List ℤ = b.proxy_latencys in
    let n : ℕ = length (sort xs) in
    let sums = sum_loop_lem n 0 (sort xs) no_sums in
    let same : n ≡ length xs = length-sort xs in
    (
      averaged (n * 90 / 100) xs (ap (λ s. s.delay_90) sums)
          ∙ ap (λ m. average_of (m * 90 / 100) xs) same,
      averaged (n * 95 / 100) xs (ap (λ s. s.delay_95) sums)
          ∙ ap (λ m. average_of (m * 95 / 100) xs) same,
      averaged (n * 99 / 100) xs (ap (λ s. s.delay_99) sums)
          ∙ ap (λ m. average_of (m * 99 / 100) xs) same,
      averaged n xs (ap (λ s. s.delay_100) sums) ∙ ap (λ m. average_of m xs) same,
      sort-IsSorted xs,
      sort-perm xs,
      refl,
    )
