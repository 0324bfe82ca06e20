-- ===== src/Common.antt =====
-- pkg/xcommon/math.go, and Go's 64-bit signed arithmetic, which wraps.
pub mod Laws
use gotu.Base.{
  ℕ, suc, ◌+◌, ◌-◌, ◌/◌, ◌%◌, ◌^◌, ℤ, pos, negsuc, Bool, true, false, if◌then◌else◌, ◌==◌,
}
use gotu.Wire.{word64, int64}

infixl 65 ◌+64◌ ◌-64◌
unfoldable pub ◌+64◌ : ℤ → ℤ → ℤ
a +64 b = int64 ((word64 a + word64 b) % 2 ^ 64)

unfoldable pub ◌-64◌ : ℤ → ℤ → ℤ
a -64 b = int64 ((word64 a + 2 ^ 64 - word64 b) % 2 ^ 64)

-- Division of an int64 by a count: towards zero. A count is a length, so it is not negative.
unfoldable pub div64 : ℤ → ℕ → ℤ
div64 (pos a) n = pos (a / n)
div64 (negsuc a) n = if suc a / n == 0 then pos 0 else negsuc (suc a / n - 1)

-- `SafeDivision` at int64 with a count as divisor.
unfoldable pub safe_division : ℤ → ℕ → ℤ
unfolding div64
safe_division a n = if n == 0 then pos 0 else div64 a n
