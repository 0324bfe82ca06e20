-- ===== src/Common/Laws.antt =====
-- Where the true result fits, wrapping arithmetic gives it.
use gotu.Base.{◌≡◌, ℤ, ◌+ℤ◌, ◌-ℤ◌, IsInt64, arith}
use gotu.Common.{◌+64◌, ◌-64◌}

pub -64-eq-sub : (a b : ℤ) → IsInt64 a → IsInt64 b → IsInt64 (a -ℤ b) → a -64 b ≡ a -ℤ b
unfolding ◌-64◌ ◌-ℤ◌
-64-eq-sub a b ha hb h = ground arith

pub +64-eq-add : (a b : ℤ) → IsInt64 a → IsInt64 b → IsInt64 (a +ℤ b) → a +64 b ≡ a +ℤ b
unfolding ◌+64◌ ◌+ℤ◌
+64-eq-add a b ha hb h = ground arith
