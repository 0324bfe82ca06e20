-- ===== src/Net/Stream/Consume.antt =====
-- The inner loop without the pool: what it does to the state and to the bytes.
use gotu.Base.{
  ℕ, zero, suc, ◌≤◌, ◌<◌, ◌≡◌, ◌≢◌, refl, ◌∙◌, true, false, none, some, [], ltb, length, drop,
  Error, arith, length-drop, ◌++◌, take,
}
use gotu.Wire.{Bytes}
use gotu.Net.Handler.{handled, panicked, OnHandlerOnce, answer, panics, fails, waits, consumes}
use gotu.Net.Buffer.{put}
use gotu.Net.Stream.{Reader, Outcome, kept, failed, crashed, out_of_fuel, drain}

-- The state and the unread bytes. After an error the bytes that are left play no part.
abbrev pub View {ℓ} : Type ℓ → Type ℓ
View S = S × Bytes

unfoldable pub consume {ℓ} : {S : Type ℓ} → ℕ → OnHandlerOnce S → S → Bytes → Outcome (View S)
consume zero on_msg s msg = out_of_fuel
consume (suc fuel) on_msg s msg = elim (on_msg s msg) [
  | panicked ↦ crashed
  | handled s' n (some e) ↦ failed (s', []) e
  | handled s' zero none ↦ kept (s', msg)
  | handled s' (suc n) none ↦ elim (ltb (length msg) (suc n)) [
    | true ↦ crashed
    | false ↦ consume fuel on_msg s' (drop (suc n) msg)
  ]
]

abbrev pub view {ℓ} : {S : Type ℓ} → Outcome (Reader S) → Outcome (View S)
view (kept r) = kept (r.state, r.read_caches)
view (failed r e) = failed (r.state, []) e
view crashed = crashed
view out_of_fuel = out_of_fuel

-- The loop with fuel enough.
unfoldable pub consume_all {ℓ} : {S : Type ℓ} → OnHandlerOnce S → S → Bytes → Outcome (View S)
consume_all on_msg s msg = consume (suc (length msg)) on_msg s msg

-- What further bytes make of an outcome.
abbrev pub resume {ℓ} : {S : Type ℓ} → OnHandlerOnce S → Outcome (View S) → Bytes → Outcome (View S)
resume on_msg (kept (s, left)) more = consume_all on_msg s (left ++ more)
resume on_msg (failed v e) more = failed v e
resume on_msg crashed more = crashed
resume on_msg out_of_fuel more = out_of_fuel

module _ {ℓ} {S : Type ℓ} (on_msg : OnHandlerOnce S) where
  consume-next :
      (fuel : ℕ) (s s' : S) (msg : Bytes) (n : ℕ)
      → on_msg s msg ≡ handled s' (suc n) none
      → suc n ≤ length msg
      → consume (suc fuel) on_msg s msg ≡ consume fuel on_msg s' (drop (suc n) msg)
  unfolding consume
  consume-next fuel s s' msg n e h = ground arith

  -- The pool has no influence on the state, the bytes and the outcome.
  pub view-drain :
      (fuel : ℕ) (r : Reader S)
      → view (drain fuel on_msg r) ≡ consume fuel on_msg r.state r.read_caches
  unfolding drain consume
  view-drain zero r = refl
  view-drain (suc fuel) r = elim (answer (on_msg r.state r.read_caches)) [
    | panics e ↦ ground arith
    | fails s n x e ↦ ground arith
    | waits s e ↦ ground arith
    | consumes s n e ↦ ground (
      arith,
      view-drain fuel (record {
        pool = put r.pool (take (suc n) r.read_caches);
        read_caches = drop (suc n) r.read_caches;
        state = s;
      }),
    )
  ]

  -- Every round consumes a byte at least, so a round for each byte and one more is fuel enough, and
  -- more fuel changes nothing.
  consume-fuel :
      (f g : ℕ) (s : S) (msg : Bytes)
      → length msg < f
      → length msg < g
      → consume f on_msg s msg ≡ consume g on_msg s msg
  unfolding consume
  consume-fuel zero g s msg hf hg = absurd (omega arith)
  consume-fuel (suc f) zero s msg hf hg = absurd (omega arith)
  consume-fuel (suc f) (suc g) s msg hf hg = elim (answer (on_msg s msg)) [
    | panics e ↦ ground arith
    | fails s' n x e ↦ ground arith
    | waits s' e ↦ ground arith
    | consumes s' n e ↦
        ground (arith, length-drop (suc n) msg, consume-fuel f g s' (drop (suc n) msg))
  ]

  ends : (f : ℕ) (s : S) (msg : Bytes) → length msg < f → consume f on_msg s msg ≢ out_of_fuel
  unfolding consume
  ends zero s msg h = absurd (omega arith)
  ends (suc f) s msg h = elim (answer (on_msg s msg)) [
    | panics e ↦ ground arith
    | fails s' n x e ↦ ground arith
    | waits s' e ↦ ground arith
    | consumes s' n e ↦ ground (arith, length-drop (suc n) msg, ends f s' (drop (suc n) msg))
  ]

  consume-all :
      (f : ℕ) (s : S) (msg : Bytes)
      → length msg < f
      → consume f on_msg s msg ≡ consume_all on_msg s msg
  unfolding consume_all
  consume-all f s msg h = consume-fuel f (suc (length msg)) s msg h (omega arith)

  -- The inner loop ends: the fuel given is never used up.
  pub consume_all-ne-out_of_fuel : (s : S) (msg : Bytes) → consume_all on_msg s msg ≢ out_of_fuel
  unfolding consume_all
  consume_all-ne-out_of_fuel s msg = ends (suc (length msg)) s msg (omega arith)

  pub consume_all-next :
      (s s' : S) (msg : Bytes) (n : ℕ)
      → on_msg s msg ≡ handled s' (suc n) none
      → suc n ≤ length msg
      → consume_all on_msg s msg ≡ consume_all on_msg s' (drop (suc n) msg)
  unfolding consume_all
  consume_all-next s s' msg n e h =
      consume-next (length msg) s s' msg n e h
      ∙ consume-fuel (length msg) (suc (length (drop (suc n) msg))) s' (drop (suc n) msg)
          (omega (arith, length-drop (suc n) msg)) (omega arith)

  pub consume_all-wait :
      (s s' : S) (msg : Bytes)
      → on_msg s msg ≡ handled s' 0 none
      → consume_all on_msg s msg ≡ kept (s', msg)
  unfolding consume_all consume
  consume_all-wait s s' msg e = ground arith

  pub consume_all-fail :
      (s s' : S) (msg : Bytes) (n : ℕ) (x : Error)
      → on_msg s msg ≡ handled s' n (some x)
      → consume_all on_msg s msg ≡ failed (s', []) x
  unfolding consume_all consume
  consume_all-fail s s' msg n x e = ground arith

  pub consume_all-crash :
      (s : S) (msg : Bytes) → on_msg s msg ≡ panicked → consume_all on_msg s msg ≡ crashed
  unfolding consume_all consume
  consume_all-crash s msg e = ground arith
