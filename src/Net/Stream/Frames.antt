-- ===== src/Net/Stream/Frames.antt =====
-- Messages over the read loop of a stream socket: what a message protocol gives the loop, and the
-- delivery of whole messages that is its abstract view.
pub mod Split
pub mod Consumed
pub mod Arrive
use gotu.Base.{
  some, ℕ, ap, refl, ℕ, suc, ◌+◌, ◌≤◌, ◌<◌, ◌≡◌, refl, sym, ap, ◌∙◌, Option, none, some, List, [],
  ◌∷◌, ◌++◌, map, append_assoc, append-nil, length, take, drop, concat, All, Error, arith,
  length-append, length-drop, drop-append_self, take-append_self, take-append, drop-append,
  take-append-drop, dec_lt, ◌-◌, Option-cases, inl, inr, true_ne_false, true, false, subst,
}
use gotu.Wire.{Bytes}
use gotu.Net.Handler.{OnHandlerOnce, handled}
use gotu.Net.Stream.{Reader, Outcome, kept, failed, crashed, out_of_fuel, chunk, turn, read_loop}
use gotu.Net.Stream.Consume.{
  View, view, consume_all, consume_all-wait, consume_all-fail, consume_all-next,
}
use gotu.Net.Stream.Chunks.{loop_view, chunks, payloads, turn-view}

-- The bytes of a proper prefix of a frame.
pub record IsPartial {ℓ} {M : Type ℓ} (frame : M → Bytes) (Fits : M → Type 0) (part : Bytes)
    : Type ℓ where
  pub message : M
  pub fits : Fits message
  pub rest : Bytes
  pub joined : part ++ rest ≡ frame message
  pub proper : length part < length (frame message)

-- Where there is a message at all, nothing is a proper prefix of one.
pub nothing-IsPartial {ℓ} :
    {M : Type ℓ} (frame : M → Bytes) (Fits : M → Type 0) (m : M)
    → Fits m
    → 0 < length (frame m)
    → IsPartial frame Fits []
nothing-IsPartial frame Fits m v h = record {
  message = m;
  fits = v;
  rest = frame m;
  joined = refl;
  proper = h;
}

-- `on_msg` takes the frames of the messages that fit one at a time, as `act` says, in every state
-- that is `Good`, and leaves what may be cut off for later: `Cut` says how a stream may be cut.
pub record IsFramed {ℓ κ} {S : Type ℓ} {M : Type κ} (on_msg : OnHandlerOnce S) (frame : M → Bytes)
    (act : S → M → S × Option Error) (Good : S → Type 0) (Fits : M → Type 0) (Cut : Bytes → Type κ)
    : Type (ℓ ⊔ κ) where
  pub size : (m : M) → Fits m → 0 < length (frame m)
  pub whole :
      (s : S) (m : M) (rest : Bytes)
      → Good s
      → Fits m
      → (act s m).1 ≡ none
      → on_msg s (frame m ++ rest) ≡ handled (act s m).0 (length (frame m)) none
  pub fails :
      (s : S) (m : M) (rest : Bytes) (e : Error)
      → Good s
      → Fits m
      → (act s m).1 ≡ some e
      → (n : ℕ) × (on_msg s (frame m ++ rest) ≡ handled (act s m).0 n (some e))
  pub keeps : (s : S) (m : M) → Good s → Fits m → Good (act s m).0
  pub waits : (s : S) (part : Bytes) → Good s → Cut part → on_msg s part ≡ handled s 0 none

-- The messages in order, each handed to the application whole, until it returns an error; `left` is
-- what stays in the cache.
unfoldable pub deliver {ℓ κ} :
    {S : Type ℓ} {M : Type κ} → (S → M → S × Option Error) → Bytes → S → List M → Outcome (View S)
deliver act left s [] = kept (s, left)
deliver act left s (m ∷ ms) = elim (act s m).1 [
  | none ↦ deliver act left (act s m).0 ms
  | some e ↦ failed ((act s m).0, []) e
]

-- A message that is handled without an error.
pub deliver-next {ℓ κ} :
    {S : Type ℓ} {M : Type κ} (act : S → M → S × Option Error) (left : Bytes) (s s' : S) (m : M)
    (ms : List M)
    → act s m ≡ (s', none)
    → deliver act left s (m ∷ ms) ≡ deliver act left s' ms
unfolding deliver
deliver-next act left s s' m ms e =
    rw (deliver, ap (λ r. r.1) e) (ap (λ r. deliver act left r.0 ms) e)
