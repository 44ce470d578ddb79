-- ===== src/Base/Bytes.antt =====
-- Big-endian numbers on a byte stream, as QDataStream writes and reads them.
use Prim.Native.Nat.{ℕ, zero, suc, ◌+◌, ◌*◌, ◌/◌, ◌%◌, ◌^◌, ◌<◌}
use mathlib.Core.Path.{◌≡◌, refl, ap, ◌∙◌}
use mathlib.Core.List.{List, [], ◌∷◌}
use native.Mathlib.Omega.{arith}
use native.Mathlib.Nat.{
  mul_comm, div-div-eq-div-mul, div-add-mod, mod-eq_of_lt, pow-suc, one-le-pow,
}
use tf.Base.Lists.{length}

abbrev pub IsByte : ℕ → Type 0
IsByte b = b < 256

-- The k lowest bytes of n, the highest first.
unfoldable pub be_bytes : ℕ → ℕ → List ℕ
be_bytes zero n = []
be_bytes (suc k) n = (n / 256 ^ k % 256) ∷ be_bytes k n

unfoldable pub be_from : ℕ → List ℕ → ℕ
be_from acc [] = acc
be_from acc (b ∷ bs) = be_from (acc * 256 + b) bs

unfoldable pub be_value : List ℕ → ℕ
unfolding be_from
be_value bs = be_from 0 bs

pub length-be_bytes : (k n : ℕ) → length (be_bytes k n) ≡ k
unfolding be_bytes
length-be_bytes zero n = refl
length-be_bytes (suc k) n = ap suc (length-be_bytes k n)

-- One digit more: the digit at position k and the rest below it are the remainder by 256 ^ (k + 1).
digit_step : (p n : ℕ) → 0 < p → n / p % 256 * p + n % p ≡ n % (256 * p)
digit_step p n h = omega (
  arith,
  div-div-eq-div-mul n p 256,
  ap (λ (t : ℕ). t * p) (div-add-mod (n / p) 256),
  div-add-mod n p,
  div-add-mod n (256 * p),
  ap (λ (t : ℕ). n / t) (mul_comm p 256),
  ap (λ (t : ℕ). 256 * p * t) (div-div-eq-div-mul n p 256 ∙ ap (λ (t : ℕ). n / t) (mul_comm p 256)),
)

be_from-be_bytes : (k n acc : ℕ) → be_from acc (be_bytes k n) ≡ acc * 256 ^ k + n % 256 ^ k
unfolding be_from be_bytes
be_from-be_bytes zero n acc = omega arith
be_from-be_bytes (suc k) n acc =
    be_from-be_bytes k n (acc * 256 + n / 256 ^ k % 256)
    ∙ omega (
      arith,
      digit_step (256 ^ k) n (one-le-pow k 256 (omega arith)),
      ap (λ (t : ℕ). n % t) (pow-suc 256 k ∙ mul_comm (256 ^ k) 256),
      ap (λ (t : ℕ). acc * t) (pow-suc 256 k),
    )

-- A number that fits k bytes is read back as it was written.
pub be_value-be_bytes : (k n : ℕ) → n < 256 ^ k → be_value (be_bytes k n) ≡ n
unfolding be_value
be_value-be_bytes k n h = be_from-be_bytes k n 0 ∙ omega (arith, mod-eq_of_lt h)
