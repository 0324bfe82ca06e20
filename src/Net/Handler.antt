-- ===== src/Net/Handler.antt =====
-- pkg/xnet/common.go: the message callback.
use gotu.Base.{ℕ, zero, suc, ◌≤◌, ◌≡◌, refl, Option, none, some, ◌++◌, length, Error}
use gotu.Wire.{Bytes}

abbrev pub read_buffer_size : ℕ
read_buffer_size = 1024

abbrev pub write_chan_limit : ℕ
write_chan_limit = 200

-- What a call of an `OnHandlerOnce` comes to: the connection's state after it, the number of bytes
-- consumed and an error, or a panic.
pub data Handled {ℓ} (S : Type ℓ) : Type ℓ where
  handled : S → ℕ → Option Error → Handled S
  panicked : Handled S

abbrev pub OnHandlerOnce {ℓ} : Type ℓ → Type ℓ
OnHandlerOnce S = S → Bytes → Handled S

-- A handler's answer as the read loops tell them apart.
pub data Answer {ℓ} {S : Type ℓ} (h : Handled S) : Type ℓ where
  panics : h ≡ panicked → Answer h
  fails : (s : S) (n : ℕ) (e : Error) → h ≡ handled s n (some e) → Answer h
  waits : (s : S) → h ≡ handled s 0 none → Answer h
  consumes : (s : S) (n : ℕ) → h ≡ handled s (suc n) none → Answer h

pub answer {ℓ} : {S : Type ℓ} (h : Handled S) → Answer h
answer panicked = panics refl
answer (handled s n (some e)) = fails s n e refl
answer (handled s zero none) = waits s refl
answer (handled s (suc n) none) = consumes s n refl

-- What the read loops rely on: a handler consumes no more than it is given, does nothing where it
-- consumes nothing, and answers the same when more bytes stand behind a message that it consumed.
pub record IsStable {ℓ} {S : Type ℓ} (on_msg : OnHandlerOnce S) : Type ℓ where
  pub bounds :
      (s : S) (msg : Bytes) (s' : S) (n : ℕ) (e : Option Error)
      → on_msg s msg ≡ handled s' n e
      → n ≤ length msg
  pub idle :
      (s : S) (msg : Bytes) (s' : S) (e : Option Error)
      → on_msg s msg ≡ handled s' 0 e
      → (s' ≡ s) × (e ≡ none)
  pub extend :
      (s : S) (msg rest : Bytes) (s' : S) (n : ℕ) (e : Option Error)
      → on_msg s msg ≡ handled s' (suc n) e
      → on_msg s (msg ++ rest) ≡ handled s' (suc n) e
  pub crash :
      (s : S) (msg rest : Bytes) → on_msg s msg ≡ panicked → on_msg s (msg ++ rest) ≡ panicked
