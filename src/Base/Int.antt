-- ===== src/Base/Int.antt =====
-- Signed integers over the native numbers, for values of type `int` that may be negative.
use Prim.Native.Nat.{ℕ, suc, ◌+◌, max}
use mathlib.Core.Bool.{Bool}
use tf.Base.Tests.{ltb}

-- `negsuc n` is -(n + 1).
pub data ℤ : Type 0 where
  pos : ℕ → ℤ
  negsuc : ℕ → ℤ

-- qMax(x, low) for a bound that is not negative.
abbrev pub max_ℕ : ℤ → ℕ → ℕ
max_ℕ (pos n) low = max n low
max_ℕ (negsuc n) low = low

abbrev pub pos_part : ℤ → ℕ
pos_part (pos n) = n
pos_part (negsuc n) = 0

abbrev pub neg_part : ℤ → ℕ
neg_part (pos n) = 0
neg_part (negsuc n) = suc n

-- a < b
abbrev pub ltb_ℤ : ℤ → ℤ → Bool
ltb_ℤ a b = ltb (pos_part a + neg_part b) (pos_part b + neg_part a)
