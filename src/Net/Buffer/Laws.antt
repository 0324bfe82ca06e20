-- ===== src/Net/Buffer/Laws.antt =====
-- What `put` promises: full buffers only, and no byte lost.
use gotu.Base.{
  ℕ, zero, suc, ◌≤◌, ◌<◌, ◌≡◌, refl, sym, ◌∙◌, inl, inr, List, [], ◌∷◌, ◌++◌, append_assoc,
  append-nil, leb, length, take, drop, concat, All, arith, length-take, length-drop,
  take-append-drop, Bool-cases, leb→le, not-leb→lt,
}
use gotu.Wire.{Bytes}
use gotu.Net.Handler.{read_buffer_size}
use gotu.Net.Buffer.{BufferPool, put_loop, put}

abbrev IsFull : Bytes → Type 0
IsFull buf = length buf ≡ read_buffer_size

All-snoc {ℓ κ} :
    {A : Type ℓ} (P : A → Type κ) (xs : List A) (x : A) → All P xs → P x → All P (xs ++ (x ∷ []))
All-snoc P [] x h p = (p, tt)
All-snoc P (y ∷ xs) x h p = (h.0, All-snoc P xs x h.1 p)

pub concat-snoc {ℓ} :
    {A : Type ℓ} (xs : List (List A)) (x : List A) → concat (xs ++ (x ∷ [])) ≡ concat xs ++ x
concat-snoc [] x = append-nil x
concat-snoc (y ∷ xs) x = rw (concat-snoc xs x) (sym (append_assoc y (concat xs) x))

-- What the pool holds, together with what it gave back.
abbrev pub all_bytes : BufferPool → Bytes
all_bytes bp = concat bp.returned ++ bp.cache

pub record IsValid (bp : BufferPool) : Type 0 where
  pub small : length bp.cache < read_buffer_size
  pub full : All IsFull bp.returned

round-all_bytes :
    (bp : BufferPool)
    → concat (bp.returned ++ (take read_buffer_size bp.cache ∷ []))
        ++ drop read_buffer_size bp.cache
      ≡ all_bytes bp
round-all_bytes bp = rw (
  concat-snoc bp.returned (take read_buffer_size bp.cache),
  append_assoc (concat bp.returned) (take read_buffer_size bp.cache),
  take-append-drop read_buffer_size bp.cache,
)

put_loop_lem :
    (fuel : ℕ) (bp : BufferPool)
    → length bp.cache ≤ fuel
    → All IsFull bp.returned
    → IsValid (put_loop fuel bp) × (all_bytes (put_loop fuel bp) ≡ all_bytes bp)
unfolding put_loop
put_loop_lem zero bp h full = (record { small = omega arith; full = full }, refl)
put_loop_lem (suc fuel) bp h full = elim (Bool-cases (leb read_buffer_size (length bp.cache))) [
  | inr e ↦ rw (e, put_loop) (record { small = not-leb→lt _ _ e; full = full }, refl)
  | inl e ↦
      let full_one : read_buffer_size ≤ length bp.cache = leb→le _ _ e in
      let bp' : BufferPool = record bp {
        cache = drop read_buffer_size bp.cache;
        returned = bp.returned ++ (take read_buffer_size bp.cache ∷ []);
      } in
      let (valid, bytes) =
        put_loop_lem fuel bp' (omega (arith, full_one, length-drop read_buffer_size bp.cache)) (
          All-snoc IsFull bp.returned (take read_buffer_size bp.cache) full
            (omega (arith, full_one, length-take read_buffer_size bp.cache))) in
      rw (e, put_loop) (valid, bytes ∙ round-all_bytes bp)
]

-- Whatever is given back, `put` keeps less than one buffer, hands only full buffers of 1024 bytes to
-- the pool, and neither loses nor reorders a byte.
put-IsValid :
    (bp : BufferPool) (bytes : Bytes)
    → IsValid bp
    → IsValid (put bp bytes) × (all_bytes (put bp bytes) ≡ all_bytes bp ++ bytes)
unfolding put
put-IsValid bp bytes v =
    let (valid, same) =
      put_loop_lem (length (bp.cache ++ bytes)) (record bp { cache = bp.cache ++ bytes })
        (omega arith) v.full in
    (valid, same ∙ sym (append_assoc (concat bp.returned) bp.cache bytes))
