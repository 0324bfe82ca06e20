-- ===== src/Wire/Laws.antt =====
-- The codecs of Wire: lengths and round trips.
use gotu.Base.{ℕ, ◌<◌, ◌^◌, ◌≡◌, refl, ℤ, IsInt32, IsInt64, arith, List, ◌++◌, length}
use gotu.Wire.{
  put_le, get_le, word32, int32, word64, int64, put_int32, get_int32, put_int64, get_int64,
}

pub get_le-put_le_four : (v : ℕ) → v < 2 ^ 32 → get_le (put_le 4 v) ≡ v
get_le-put_le_four v h = omega arith

pub get_le-put_le_eight : (v : ℕ) → v < 2 ^ 64 → get_le (put_le 8 v) ≡ v
get_le-put_le_eight v h = omega arith

pub word32-lt : (z : ℤ) → word32 z < 2 ^ 32
word32-lt z = ground arith

pub word64-lt : (z : ℤ) → word64 z < 2 ^ 64
word64-lt z = ground arith

int32-word32 : (z : ℤ) → IsInt32 z → int32 (word32 z) ≡ z
int32-word32 z h = ground arith

int64-word64 : (z : ℤ) → IsInt64 z → int64 (word64 z) ≡ z
int64-word64 z h = ground arith

pub length-put_int32 : (z : ℤ) → length (put_int32 z) ≡ 4
unfolding put_int32
length-put_int32 z = refl

pub get_int32-put_int32 : (z : ℤ) (rest : List ℕ) → IsInt32 z → get_int32 (put_int32 z ++ rest) ≡ z
unfolding put_int32 get_int32
get_int32-put_int32 z rest h = rw (get_le-put_le_four (word32 z) (word32-lt z)) (int32-word32 z h)

pub get_int64-put_int64 : (z : ℤ) (rest : List ℕ) → IsInt64 z → get_int64 (put_int64 z ++ rest) ≡ z
unfolding put_int64 get_int64
get_int64-put_int64 z rest h = rw (get_le-put_le_eight (word64 z) (word64-lt z)) (int64-word64 z h)
