-- ===== src/Tests/Replies.antt =====
-- Runs of the code of src/tredisdriver.cpp, with decimal numbers.
use tf.Base.{
  ℕ, zero, suc, ◌+◌, ◌-◌, ◌*◌, ◌/◌, ◌%◌, ◌<◌, ◌≡◌, ◌≢◌, refl, ap, true, List, [], ◌∷◌, ◌++◌, some,
  ltb, if◌then◌else◌, All, All-append, arith, inl, inr, Bool-cases,
}
use tf.Base.Text.{Text, codes}
use tf.Base.Int.{pos}
use tf.Redis.{Decimal, IsDecimal, Driver, nil, cr, lf, to_multi_bulk}
use tf.Redis.Laws.{add_texts}
use tf.Redis.Request.{request, request-to_multi_bulk}

digits : ℕ → ℕ → Text
digits zero n = []
digits (suc fuel) n =
    let before = digits fuel (n / 10) in
    if ltb n 10 then (48 + n) ∷ [] else before ++ (48 + n % 10) ∷ []

value : ℕ → Text → ℕ
value n [] = n
value n (c ∷ s) = value (n * 10 + (c - 48)) s

value-append : (n : ℕ) (s : Text) (c : ℕ) → value n (s ++ c ∷ []) ≡ value n s * 10 + (c - 48)
unfolding value
value-append n [] c = refl
value-append n (d ∷ s) c = value-append (n * 10 + (d - 48)) s c

value-one : (m : ℕ) → value 0 ((48 + m) ∷ []) ≡ m
unfolding value
value-one m = omega arith

value-digits : (fuel n : ℕ) → n < fuel → value 0 (digits fuel n) ≡ n
unfolding digits
value-digits zero n lt = absurd (omega arith)
value-digits (suc fuel) n lt = elim (Bool-cases (ltb n 10)) [
  | inl e ↦ rw e (value-one n)
  | inr e ↦
      let rest = value-digits fuel (n / 10) (ground arith) in
      rw (e, value-append 0 (digits fuel (n / 10)) (48 + n % 10), rest) (omega arith)
]

digits-no_cr : (fuel n : ℕ) → All (λ c. c ≢ cr) (digits fuel n)
unfolding digits
digits-no_cr zero n = tt
digits-no_cr (suc fuel) n = elim (Bool-cases (ltb n 10)) [
  | inl e ↦ rw e (omega arith, tt)
  | inr e ↦ rw e (
      All-append (λ c. c ≢ cr) (digits fuel (n / 10)) ((48 + n % 10) ∷ [])
        (digits-no_cr fuel (n / 10)) (omega arith, tt))
]

abbrev decimal : Decimal
decimal = record { number = λ n. digits (suc n) n; to_int = λ s. pos (value 0 s) }

decimal-IsDecimal : IsDecimal decimal
decimal-IsDecimal = record {
  to_int-number = λ n small. ap pos (value-digits (suc n) n (omega arith));
  no_cr = λ n. digits-no_cr (suc n) n;
}

abbrev texts : List Text
texts = codes "user" ∷ [] ∷ codes "42" ∷ []

request-to_multi_bulk_example :
    request decimal true true (to_multi_bulk decimal texts ∷ []) nil
    ≡ some (record { ret = true; response = add_texts nil texts; is_open = true })
request-to_multi_bulk_example =
    request-to_multi_bulk decimal decimal-IsDecimal (codes "user") ([] ∷ codes "42" ∷ []) []
      (omega arith, (omega arith, (omega arith, tt))) (omega arith)

-- A buffer whose counts promise more than there is.
abbrev nested : Driver
nested = record { buffer = b'*' ∷ b'2' ∷ cr ∷ lf ∷ b'*' ∷ b'9' ∷ cr ∷ lf ∷ b':' ∷ []; pos = 0 }
