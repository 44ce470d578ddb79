-- ===== src/Header/Parsing.antt =====
-- parse() of src/tinternetmessageheader.cpp ends, and makes no null entry.
use mathlib.Core.Option
use tf.Base.{
  ℕ, zero, suc, ◌+◌, ◌-◌, ◌≤◌, ◌<◌, ◌≡◌, refl, false, [], ◌∷◌, ◌++◌, Option, none, some, length,
  drop, ltb, Bool-cases, inl, inr, All, All-append, arith, min,
}
use tf.Base.Text.{Text, is_empty, index_of, index_of_text, starts_with, mid}
use tf.Header.{
  Header, index_from, or_else, header_len, crlf, goes_on, value_line, parse_value, add_field,
  field_at, parse_fields, parse,
}
use tf.Header.Lookup.{HasValue}

-- What was found stands from the start of the search on.
IsFrom : ℕ → Option ℕ → Type 0
IsFrom from none = Unit
IsFrom from (some n) = from ≤ n

index_from-IsFrom : (c : ℕ) (s : Text) (from : ℕ) → IsFrom from (index_from c s from)
unfolding IsFrom index_from
index_from-IsFrom c s from = go (index_of c (drop from s))
  where
    go : (r : Option ℕ) → IsFrom from (Option.map (λ n. from + n) r)
    go none = tt
    go (some n) = omega arith

or_else-IsFrom : (j n : ℕ) (r : Option ℕ) → IsFrom j r → min j n ≤ or_else n r
unfolding IsFrom
or_else-IsFrom j n none h = omega arith
or_else-IsFrom j n (some m) h = omega (arith, h)

next_line : (header : Text) (j : ℕ) → ℕ
next_line header j = or_else (length header) (index_from 10 header j)

next_line-bound : (header : Text) (j : ℕ) → min j (length header) ≤ next_line header j
unfolding next_line
next_line-bound header j =
    or_else-IsFrom j (length header) (index_from 10 header j) (index_from-IsFrom 10 header j)

-- A value has been read, and the position is behind where it began.
IsValue : ℕ → ℕ → Option (Text × ℕ) → Type 0
IsValue size j none = ⊥
IsValue size j (some (value, i)) = min j size < i

IsValue-later :
    (size j j' : ℕ) (r : Option (Text × ℕ)) → j ≤ j' → IsValue size j' r → IsValue size j r
unfolding IsValue
IsValue-later size j j' none le v = v
IsValue-later size j j' (some (value, i)) le v = omega (arith, v)

-- A header has been read, without null entries.
IsParsed : Option Header → Type 0
IsParsed none = ⊥
IsParsed (some h) = All HasValue h

IsParsed-result : (r : Option Header) → IsParsed r → (h : Header) × (r ≡ some h) × All HasValue h
unfolding IsParsed
IsParsed-result none v = absurd v
IsParsed-result (some h) v = (h, refl, v)

-- What was found stands at a bound at most.
IsUpTo : ℕ → Option ℕ → Type 0
IsUpTo k none = Unit
IsUpTo k (some n) = n ≤ k

IsUpTo-suc : (k : ℕ) (r : Option ℕ) → IsUpTo k r → IsUpTo (suc k) (Option.map suc r)
unfolding IsUpTo
IsUpTo-suc k none h = tt
IsUpTo-suc k (some n) h = omega (arith, h)

index_of_text-IsUpTo : (p s : Text) → IsUpTo (length s) (index_of_text p s)
unfolding index_of_text IsUpTo
index_of_text-IsUpTo p [] = elim (Bool-cases (is_empty p)) [
  | inl e ↦ rw e (omega arith)
  | inr e ↦ rw e tt
]
index_of_text-IsUpTo p (c ∷ s) = elim (Bool-cases (starts_with (c ∷ s) p)) [
  | inl e ↦ rw e (omega arith)
  | inr e ↦ rw e (IsUpTo-suc (length s) (index_of_text p s) (index_of_text-IsUpTo p s))
]

or_else-IsUpTo : (n : ℕ) (r : Option ℕ) → IsUpTo n r → or_else n r ≤ n
unfolding IsUpTo
or_else-IsUpTo n none h = omega arith
or_else-IsUpTo n (some m) h = h

header_len-bound : (header : Text) → header_len header ≤ length header
unfolding header_len
header_len-bound header =
    or_else-IsUpTo (length header) _ (index_of_text-IsUpTo (crlf ++ crlf) header)

module _ (trimmed : Text → Text) where
  parse_value-IsValue :
      (fuel : ℕ) (header : Text) (len : ℕ) (value : Text) (j : ℕ)
      → len ≤ length header
      → 1 ≤ fuel
      → length header < j + fuel
      → IsValue (length header) j (parse_value trimmed fuel header len value j)
  unfolding parse_value IsValue next_line
  parse_value-IsValue zero header len value j le some_fuel enough = absurd (omega arith)
  parse_value-IsValue (suc fuel) header len value j le some_fuel enough =
      let i = next_line header j in
      let bound = next_line-bound header j in
      elim (Bool-cases (goes_on header len (i + 1))) [
        | inl e ↦
            let inside : i + 1 < len = ground arith in
            rw e (
              IsValue-later (length header) j (i + 1) _ (omega (arith, inside, bound)) (
                parse_value-IsValue fuel header len (value_line trimmed header value j i) (i + 1) le
                  (omega (arith, inside, bound)) (omega (arith, inside, bound))))
        | inr e ↦ rw e (omega (arith, bound))
      ]

  field_at-IsParsed :
      (again : Header → ℕ → Option Header) (pairs : Header) (header : Text) (len i : ℕ)
      (r : Option ℕ)
      → len ≤ length header
      → i < len
      → IsFrom i r
      → All HasValue pairs
      → ((pairs' : Header) (i' : ℕ) → All HasValue pairs' → i < i' → IsParsed (again pairs' i'))
      → IsParsed (field_at trimmed again pairs header len i r)
  unfolding field_at add_field IsFrom IsValue IsParsed
  field_at-IsParsed again pairs header len i none le lt from vs ih = vs
  field_at-IsParsed again pairs header len i (some j) le lt from vs ih =
      added (parse_value trimmed (suc (length header)) header len [] (j + 1)) (
        parse_value-IsValue (suc (length header)) header len [] (j + 1) le (omega arith)
          (omega arith))
    where
      added :
          (v : Option (Text × ℕ))
          → IsValue (length header) (j + 1) v
          → IsParsed (add_field trimmed again pairs (trimmed (mid header i (j - i))) v)
      added none w = absurd w
      added (some (value, i')) w =
          ih (pairs ++ (trimmed (mid header i (j - i)), some value) ∷ []) i'
            (All-append HasValue pairs _ vs (refl, tt)) (omega (arith, w))

  parse_fields-IsParsed :
      (fuel : ℕ) (header : Text) (len : ℕ) (pairs : Header) (i : ℕ)
      → len ≤ length header
      → len ≤ i + fuel
      → All HasValue pairs
      → IsParsed (parse_fields trimmed fuel header len pairs i)
  unfolding parse_fields IsParsed
  parse_fields-IsParsed zero header len pairs i le enough vs =
      let over : ltb i len ≡ false = ground arith in rw over vs
  parse_fields-IsParsed (suc fuel) header len pairs i le enough vs = elim (Bool-cases (ltb i len)) [
    | inl e ↦
        let inside : i < len = ground arith in
        rw e (
          field_at-IsParsed _ pairs header len i _ le inside (index_from-IsFrom b':' header i) vs
            (λ pairs' i' vs' lt.
              parse_fields-IsParsed fuel header len pairs' i' le (omega arith) vs'))
    | inr e ↦ rw e vs
  ]

  -- parse() ends on every text, with one round a byte as fuel, and a header without null entries
  -- is one without null entries after it.
  pub parse-HasValue :
      (header : Text) (pairs : Header)
      → All HasValue pairs
      → (h : Header) × (parse trimmed header pairs ≡ some h) × All HasValue h
  unfolding parse
  parse-HasValue header pairs vs = IsParsed-result _ (
      parse_fields-IsParsed (length header) header (header_len header) pairs 0
        (header_len-bound header) (omega (arith, header_len-bound header)) vs)
