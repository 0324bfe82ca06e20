-- ===== src/Net/Stream/Frames/Consumed.antt =====
-- The inner loop over frames, and the ends of a delivery.
use gotu.Base.{
  suc, ◌≡◌, refl, sym, ap, ◌∙◌, Option, none, some, List, [], ◌∷◌, ◌++◌, map, append_assoc, length,
  drop, concat, All, Error, arith, length-append, drop-append_self, ◌-◌, Option-cases, inl, inr,
  true, false, subst,
}
use gotu.Wire.{Bytes}
use gotu.Net.Handler.{OnHandlerOnce, handled}
use gotu.Net.Stream.{Outcome, kept, failed, crashed, out_of_fuel}
use gotu.Net.Stream.Consume.{
  View, consume_all, consume_all-wait, consume_all-fail, consume_all-next,
}
use gotu.Net.Stream.Frames.{IsFramed, deliver}

pub All-parts {ℓ} :
    {A : Type ℓ} (P : A → Type 0) (xs ys : List A) → All P (xs ++ ys) → All P xs × All P ys
All-parts P [] ys h = (tt, h)
All-parts P (x ∷ xs) ys (p, h) = ((p, (All-parts P xs ys h).0), (All-parts P xs ys h).1)

-- What follows once the first messages are delivered.
abbrev pub then_deliver {ℓ κ} :
    {S : Type ℓ} {M : Type κ}
    → (S → M → S × Option Error)
    → Bytes
    → List M
    → Outcome (View S)
    → Outcome (View S)
then_deliver act left ms (kept (s, _)) = deliver act left s ms
then_deliver act left ms (failed v e) = failed v e
then_deliver act left ms crashed = crashed
then_deliver act left ms out_of_fuel = out_of_fuel

module _ {ℓ κ} {S : Type ℓ} {M : Type κ} (act : S → M → S × Option Error) where
  pub deliver-append :
      (xs ys : List M) (s : S) (part left : Bytes)
      → deliver act left s (xs ++ ys) ≡ then_deliver act left ys (deliver act part s xs)
  unfolding deliver
  deliver-append [] ys s part left = refl
  deliver-append (x ∷ xs) ys s part left = elim (Option-cases (act s x).1) [
    | inl e ↦ rw (e, deliver) (deliver-append xs ys (act s x).0 part left)
    | inr (err, e) ↦ rw (e, deliver) refl
  ]

module _ {ℓ κ} {S : Type ℓ} {M : Type κ} {on_msg : OnHandlerOnce S} {frame : M → Bytes}
    {act : S → M → S × Option Error} {Good : S → Type 0} {Fits : M → Type 0} {Cut : Bytes → Type κ}
    (framed : IsFramed on_msg frame act Good Fits Cut) where
  -- The inner loop takes the whole frames and leaves the part behind them.
  pub consume_all-frames :
      (ms : List M) (s : S) (part : Bytes)
      → Good s
      → All Fits ms
      → Cut part
      → consume_all on_msg s (concat (map frame ms) ++ part) ≡ deliver act part s ms
  unfolding deliver
  consume_all-frames [] s part g v p = consume_all-wait on_msg s s part (framed.waits s part g p)
  consume_all-frames (m ∷ ms) s part g v p =
      rw (append_assoc (frame m) (concat (map frame ms)) part) (
        after (consume_all-frames ms (act s m).0 part (framed.keeps s m g v.0) v.1 p) (act s m).1
          refl)
    where
      rest : Bytes
      rest = concat (map frame ms) ++ part

      size : length (frame m) ≡ suc (length (frame m) - 1)
      size = omega (arith, framed.size m v.0)

      after :
          consume_all on_msg (act s m).0 rest ≡ deliver act part (act s m).0 ms
          → (e : Option Error) → (act s m).1 ≡ e
          → consume_all on_msg s (frame m ++ rest) ≡ deliver act part s (m ∷ ms)
      after ih none h =
          rw (h, deliver)
            (consume_all-next on_msg s (act s m).0 (frame m ++ rest) (length (frame m) - 1)
                (framed.whole s m rest g v.0 h ∙ ap (λ n. handled (act s m).0 n none) size)
                (omega (arith, length-append (frame m) rest, size))
              ∙ ap (λ n. consume_all on_msg (act s m).0 (drop n (frame m ++ rest))) (sym size)
              ∙ ap (consume_all on_msg (act s m).0) (drop-append_self (frame m) rest)
              ∙ ih)
      after ih (some e) h =
          rw (h, deliver)
            (consume_all-fail on_msg s (act s m).0 (frame m ++ rest)
              (framed.fails s m rest e g v.0 h).0 e (framed.fails s m rest e g v.0 h).1)

  -- A delivery leaves the part, in a good state, or ends with an error.
  abbrev pub Ends : Bytes → Outcome (View S) → Type 0
  Ends left (kept (s, more)) = Good s × (more ≡ left)
  Ends left (failed v e) = Unit
  Ends left crashed = true ≡ false
  Ends left out_of_fuel = true ≡ false

  pub deliver-Ends :
      (ms : List M) (s : S) (left : Bytes)
      → Good s
      → All Fits ms
      → Ends left (deliver act left s ms)
  unfolding deliver
  deliver-Ends [] s left g v = (g, refl)
  deliver-Ends (m ∷ ms) s left g v = elim (Option-cases (act s m).1) [
    | inl e ↦
        subst
          (λ o. Ends left (elim o [
            | none ↦ deliver act left (act s m).0 ms
            | some err ↦ failed ((act s m).0, []) err
          ]))
          (sym e) (deliver-Ends ms (act s m).0 left (framed.keeps s m g v.0) v.1)
    | inr (err, e) ↦
        subst
          (λ o. Ends left (elim o [
            | none ↦ deliver act left (act s m).0 ms
            | some err ↦ failed ((act s m).0, []) err
          ]))
          (sym e) tt
  ]

  -- A waiting cache that is cut into frames is the part alone.
  pub alone :
      (ms : List M) (s : S) (cache part : Bytes)
      → Good s
      → All Fits ms
      → Cut cache
      → cache ≡ concat (map frame ms) ++ part
      → deliver act part s ms ≡ kept (s, cache)
  unfolding deliver
  alone [] s cache part g v p e = ap (λ t. kept (s, t)) (sym e)
  alone (m ∷ ms) s cache part g v p e =
      let more : Bytes = concat (map frame ms) ++ part in
      let waits : handled s 0 none ≡ on_msg s (frame m ++ more) =
        sym (framed.waits s cache g p)
        ∙ ap (on_msg s) (e ∙ append_assoc (frame m) (concat (map frame ms)) part) in
      elim (Option-cases (act s m).1) [
        | inl h ↦ absurd (ground (arith, framed.size m v.0, waits ∙ framed.whole s m more g v.0 h))
        | inr (x, h) ↦ absurd (ground (arith, waits ∙ (framed.fails s m more x g v.0 h).1))
      ]
