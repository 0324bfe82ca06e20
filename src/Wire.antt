-- ===== src/Wire.antt =====
-- What the program uses of Go's encoding/binary: fixed-size values in little-endian order, signed
-- integers in two's complement; and Go's slice expression. A byte is a number below 256.
pub mod Laws
use gotu.Base.{
  ℕ, zero, suc, ◌+◌, ◌-◌, ◌*◌, ◌/◌, ◌%◌, ◌^◌, ◌<◌, Bool, ◌||◌, Option, none, some, List, [], ◌∷◌,
  ◌++◌, ℤ, pos, negsuc, pos_part, ltb_ℤ, ltb, ◌==◌, if◌then◌else◌, length, take, drop, All, Error,
  eof, short_read,
}

abbrev pub IsByte : ℕ → Type 0
IsByte b = b < 256

abbrev pub Bytes : Type 0
Bytes = List ℕ

abbrev pub IsBytes : Bytes → Type 0
IsBytes = All IsByte

-- Go's pair of a value and an error.
pub data Result {ℓ} (A : Type ℓ) : Type ℓ where
  ok : A → Result A
  err : Error → Result A

-- The low `w` bytes of `v`, the lowest first.
abbrev pub put_le : ℕ → ℕ → Bytes
put_le zero v = []
put_le (suc w) v = (v % 256) ∷ put_le w (v / 256)

abbrev pub get_le : Bytes → ℕ
get_le [] = 0
get_le (b ∷ bs) = b + 256 * get_le bs

-- The bit pattern of a signed integer of 32 and of 64 bits, and back. `word32` wraps.
abbrev pub word32 : ℤ → ℕ
word32 (pos n) = n % 2 ^ 32
word32 (negsuc n) = 2 ^ 32 - 1 - n % 2 ^ 32

abbrev pub int32 : ℕ → ℤ
int32 w = if ltb w (2 ^ 31) then pos w else negsuc (2 ^ 32 - 1 - w)

abbrev pub word64 : ℤ → ℕ
word64 (pos n) = n % 2 ^ 64
word64 (negsuc n) = 2 ^ 64 - 1 - n % 2 ^ 64

abbrev pub int64 : ℕ → ℤ
int64 w = if ltb w (2 ^ 63) then pos w else negsuc (2 ^ 64 - 1 - w)

unfoldable pub put_int32 : ℤ → Bytes
put_int32 z = put_le 4 (word32 z)

unfoldable pub get_int32 : Bytes → ℤ
get_int32 bs = int32 (get_le (take 4 bs))

unfoldable pub put_int64 : ℤ → Bytes
put_int64 z = put_le 8 (word64 z)

unfoldable pub get_int64 : Bytes → ℤ
get_int64 bs = int64 (get_le (take 8 bs))

-- `binary.Read` of a value of `size` bytes: it fails if the reader ends before.
unfoldable pub read_fixed {ℓ} : {A : Type ℓ} → ℕ → (Bytes → A) → Bytes → Result A
read_fixed size decode bs =
    if ltb (length bs) size
    then err (if length bs == 0 then eof else short_read)
    else ok (decode bs)

-- `buf[lo:hi]` for a slice whose backing array holds `buf` up to its capacity; `none` is a panic.
unfoldable pub slice : Bytes → ℕ → ℤ → Option Bytes
slice buf lo hi =
    if ltb_ℤ hi (pos lo) || ltb_ℤ (pos (length buf)) hi
    then none
    else some (drop lo (take (pos_part hi) buf))
