-- ===== src/Base/Int.antt =====
-- Python's signed integers, over the native numbers, as far as the program uses them: the test
-- against zero, the product by a positive factor and the range of a database column.
use Prim.Native.Nat.{ℕ, zero, suc, ◌-◌, ◌*◌}
use mathlib.Core.Bool.{Bool, true, false}
use schedualerl_lm.Base.Tests.{ltb}

-- `negsuc n` is -(n + 1).
pub data ℤ : Type 0 where
  pos : ℕ → ℤ
  negsuc : ℕ → ℤ

-- Whether a column of type `integer`, of 32 bits, can hold the number.
abbrev pub fits_integer : ℤ → Bool
fits_integer (pos n) = ltb n 2147483648
fits_integer (negsuc n) = ltb n 2147483648

-- 0 < n
abbrev pub is_positive : ℤ → Bool
is_positive (pos zero) = false
is_positive (pos (suc n)) = true
is_positive (negsuc n) = false

-- z * k for a natural number k
abbrev pub mul_ℕ : ℤ → ℕ → ℤ
mul_ℕ (pos n) k = pos (n * k)
mul_ℕ (negsuc n) zero = pos 0
mul_ℕ (negsuc n) (suc k) = negsuc (suc n * suc k - 1)
