-- ===== src/Base/Bits.antt =====
-- The bit operations of the C++ language on bytes, read as arithmetic. Each law is checked at
-- every value of the range that its variable has.
use Prim.Native.Nat.{ℕ, zero, suc, ◌+◌, ◌*◌, ◌/◌, ◌%◌, ◌<◌}
use Prim.Native.Nat.{bit_and, bit_or, bit_xor}
use mathlib.Core.Path.{◌≡◌, refl}
use mathlib.Core.Bool.{Bool, true, false}
use native.Mathlib.Omega.{arith}
use native.Mathlib.Decide.{dec_lt}
use tf.Base.Tests.{◌==◌, ==_iff, if◌then◌else◌}

-- Whether two functions have the same values below a bound.
agree : (ℕ → ℕ) → (ℕ → ℕ) → ℕ → Bool
agree f g zero = true
agree f g (suc bound) = if agree f g bound then f bound == g bound else false

-- The last value is that of the bound, and the others stand before it.
agree_below : (bound : ℕ) (f g : ℕ → ℕ) → agree f g bound ≡ true → (x : ℕ) → x < bound → f x ≡ g x
unfolding agree
agree_below zero f g h x lt = absurd (omega arith)
agree_below (suc bound) f g h x lt = elim (dec_lt x bound) [
  | yes below ↦ agree_below bound f g (ground arith) x below
  | no not_below ↦
      let last : x ≡ bound = omega arith in rw last ((==_iff (f bound) (g bound)).0 (ground arith))
]

pub bit_and_0x80 : (x : ℕ) → x < 256 → bit_and x 0x80 ≡ x / 128 * 128
unfolding agree
bit_and_0x80 = agree_below 256 (λ x. bit_and x 0x80) (λ x. x / 128 * 128) refl

pub bit_and_0x40 : (x : ℕ) → x < 256 → bit_and x 0x40 ≡ x / 64 % 2 * 64
unfolding agree
bit_and_0x40 = agree_below 256 (λ x. bit_and x 0x40) (λ x. x / 64 % 2 * 64) refl

pub bit_and_0x20 : (x : ℕ) → x < 256 → bit_and x 0x20 ≡ x / 32 % 2 * 32
unfolding agree
bit_and_0x20 = agree_below 256 (λ x. bit_and x 0x20) (λ x. x / 32 % 2 * 32) refl

pub bit_and_0x10 : (x : ℕ) → x < 256 → bit_and x 0x10 ≡ x / 16 % 2 * 16
unfolding agree
bit_and_0x10 = agree_below 256 (λ x. bit_and x 0x10) (λ x. x / 16 % 2 * 16) refl

pub bit_and_0x0f : (x : ℕ) → x < 256 → bit_and x 0x0f ≡ x % 16
unfolding agree
bit_and_0x0f = agree_below 256 (λ x. bit_and x 0x0f) (λ x. x % 16) refl

pub bit_and_0x08 : (x : ℕ) → x < 256 → bit_and x 0x08 ≡ x / 8 % 2 * 8
unfolding agree
bit_and_0x08 = agree_below 256 (λ x. bit_and x 0x08) (λ x. x / 8 % 2 * 8) refl

pub bit_and_0x7f : (x : ℕ) → x < 256 → bit_and x 0x7f ≡ x % 128
unfolding agree
bit_and_0x7f = agree_below 256 (λ x. bit_and x 0x7f) (λ x. x % 128) refl

pub bit_and_0x3f : (x : ℕ) → x < 256 → bit_and x 0x3f ≡ x % 64
unfolding agree
bit_and_0x3f = agree_below 256 (λ x. bit_and x 0x3f) (λ x. x % 64) refl

pub bit_and_0xf0 : (x : ℕ) → x < 256 → bit_and x 0xf0 ≡ x / 16 * 16
unfolding agree
bit_and_0xf0 = agree_below 256 (λ x. bit_and x 0xf0) (λ x. x / 16 * 16) refl

pub bit_or_0x80 : (x : ℕ) → x < 256 → bit_or x 0x80 ≡ x % 128 + 128
unfolding agree
bit_or_0x80 = agree_below 256 (λ x. bit_or x 0x80) (λ x. x % 128 + 128) refl

pub zero-bit_or : (x : ℕ) → x < 128 → bit_or 0 x ≡ x
unfolding agree
zero-bit_or = agree_below 128 (λ x. bit_or 0 x) (λ x. x) refl

pub 0x80-bit_or : (x : ℕ) → x < 128 → bit_or 0x80 x ≡ 128 + x
unfolding agree
0x80-bit_or = agree_below 128 (λ x. bit_or 0x80 x) (λ x. 128 + x) refl

-- XOR with the same byte twice gives the byte back.
twice_agrees : ℕ → ℕ → ℕ
twice_agrees k x = bit_xor (bit_xor x k) k

-- 1 where XOR with a byte twice gives every byte back.
gives_back : ℕ → ℕ
unfolding agree twice_agrees
gives_back k = if agree (twice_agrees k) (λ x. x) 256 then 1 else 0

gives_back-one : (k : ℕ) → k < 256 → gives_back k ≡ 1
unfolding agree gives_back
gives_back-one = agree_below 256 gives_back (λ k. 1) refl

pub bit_xor_self : (k x : ℕ) → k < 256 → x < 256 → bit_xor (bit_xor x k) k ≡ x
unfolding gives_back twice_agrees
bit_xor_self k x hk hx =
    agree_below 256 (twice_agrees k) (λ x. x) (ground (arith, gives_back-one k hk)) x hx
