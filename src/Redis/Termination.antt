-- ===== src/Redis/Termination.antt =====
-- parseArray() of src/tredisdriver.cpp ends: every round moves the position on.
use tf.Base.{
  ℕ, zero, suc, ◌+◌, ◌≤◌, ◌<◌, ◌≡◌, refl, ap, ◌∙◌, [], ◌∷◌, Option, none, some, length, get_or, leb,
  ◌==◌, arith, inl, inr, Bool-cases, ==_iff,
}
use tf.Base.Text.{Text}
use tf.Base.Int.{ℤ, pos, negsuc}
use tf.Redis.{
  Decimal, Driver, Replies, nil, add, count, array, unread, advance, get_number, number_of,
  index_of_crlf, bulk_of, parse_bulk_string, elements, parse_array, Parsed, failed, parsed, nested,
  go_on, add_array, add_bulk, add_integer, reached,
}

-- A step that succeeds stays in the buffer and moves the position on.
IsMoved {ℓ} : {A : Type ℓ} → Driver → Option A × Driver → Type 0
IsMoved d (none, d') = Unit
IsMoved d (some x, d') = (d'.buffer ≡ d.buffer) × (d.pos < d'.pos)

IsWithin : Driver → Parsed → Type 0
IsWithin d failed = Unit
IsWithin d (parsed lst d') = (d'.buffer ≡ d.buffer) × (d.pos < d'.pos)

-- A result is there, and it is one that moved on.
IsTotal : Driver → Option Parsed → Type 0
unfolding IsWithin
IsTotal d none = ⊥
IsTotal d (some r) = IsWithin d r

IsTotal-result : (d : Driver) (x : Option Parsed) → IsTotal d x → (r : Parsed) × (x ≡ some r)
unfolding IsTotal
IsTotal-result d none t = absurd t
IsTotal-result d (some r) t = (r, refl)

module _ (dec : Decimal) where
  number_of-IsMoved : (d : Driver) (i : Option ℕ) → IsMoved d (number_of dec (advance d 1) i)
  unfolding IsMoved number_of
  number_of-IsMoved d none = tt
  number_of-IsMoved d (some i) = (refl, omega arith)

  get_number-IsMoved : (d : Driver) → IsMoved d (get_number dec (advance d 1))
  unfolding get_number
  get_number-IsMoved d = number_of-IsMoved d (index_of_crlf (unread (advance d 1)))

  bulk_of-IsMoved : (d : Driver) (r : Option ℤ × Driver) → IsMoved d r → IsMoved d (bulk_of dec d r)
  unfolding IsMoved bulk_of
  bulk_of-IsMoved d (none, d') m = tt
  bulk_of-IsMoved d (some (negsuc zero), d') m = m
  bulk_of-IsMoved d (some (negsuc (suc n)), d') m = tt
  bulk_of-IsMoved d (some (pos n), d') m = elim (Bool-cases (leb (d'.pos + 2) (length d'.buffer))) [
    | inl e ↦ rw e (m.0, omega (arith, m.1))
    | inr e ↦ rw e tt
  ]

  parse_bulk_string-IsMoved : (d : Driver) → IsMoved d (parse_bulk_string dec d)
  unfolding parse_bulk_string
  parse_bulk_string-IsMoved d = bulk_of-IsMoved d _ (get_number-IsMoved d)

  add_bulk-IsMoved :
      (d : Driver) (lst : Replies) (r : Option (Option Text) × Driver)
      → IsMoved d r
      → IsMoved d (add_bulk dec lst r)
  unfolding IsMoved
  add_bulk-IsMoved d lst (none, d') m = tt
  add_bulk-IsMoved d lst (some x, d') m = m

  add_integer-IsMoved :
      (d : Driver) (lst : Replies) (r : Option ℤ × Driver)
      → IsMoved d r
      → IsMoved d (add_integer dec lst r)
  unfolding IsMoved
  add_integer-IsMoved d lst (none, d') m = tt
  add_integer-IsMoved d lst (some x, d') m = m

  IsTotal-trans :
      (d d' : Driver) (x : Option Parsed)
      → d'.buffer ≡ d.buffer
      → d.pos < d'.pos
      → IsTotal d' x
      → IsTotal d x
  unfolding IsTotal IsWithin
  IsTotal-trans d d' none e lt t = t
  IsTotal-trans d d' (some failed) e lt t = tt
  IsTotal-trans d d' (some (parsed lst d'')) e lt t = (t.0 ∙ e, omega (arith, t.1))

  go_on-IsTotal :
      (d : Driver) (n : ℤ) (r : Option Replies × Driver) (more : Replies → Driver → Option Parsed)
      → IsMoved d r
      → ((lst : Replies) (d' : Driver)
          → d'.buffer ≡ d.buffer
          → d.pos < d'.pos
          → IsTotal d' (more lst d'))
      → IsTotal d (go_on dec n r more)
  unfolding go_on IsMoved IsTotal IsWithin
  go_on-IsTotal d n (none, d') more m ih = tt
  go_on-IsTotal d n (some lst, d') more m ih = elim (Bool-cases (reached n (count lst))) [
    | inl e ↦ rw e m
    | inr e ↦ rw e (IsTotal-trans d d' (more lst d') m.0 m.1 (ih lst d' m.0 m.1))
  ]

  nested-IsTotal :
      (d : Driver) (r : Option ℤ × Driver) (inner : ℤ → Driver → Option Parsed)
      → IsMoved d r
      → ((n : ℤ) (d' : Driver) → d'.buffer ≡ d.buffer → d.pos < d'.pos → IsTotal d' (inner n d'))
      → IsTotal d (nested dec inner r)
  unfolding nested IsMoved IsTotal IsWithin
  nested-IsTotal d (none, d') inner m ih = tt
  nested-IsTotal d (some n, d') inner m ih =
      IsTotal-trans d d' (inner n d') m.0 m.1 (ih n d' m.0 m.1)

  add_array-IsTotal :
      (d : Driver) (n : ℤ) (lst : Replies) (more : Replies → Driver → Option Parsed)
      (x : Option Parsed)
      → IsTotal d x
      → ((lst' : Replies) (d' : Driver)
          → d'.buffer ≡ d.buffer
          → d.pos < d'.pos
          → IsTotal d' (more lst' d'))
      → IsTotal d (add_array dec n lst more x)
  unfolding add_array IsTotal IsWithin IsMoved
  add_array-IsTotal d n lst more none t ih = absurd t
  add_array-IsTotal d n lst more (some failed) t ih = tt
  add_array-IsTotal d n lst more (some (parsed var d')) t ih =
      go_on-IsTotal d n (some (add lst (array var)), d') more t ih

  failed-IsTotal : (d : Driver) → IsTotal d (some failed)
  unfolding IsTotal IsWithin
  failed-IsTotal d = tt

  -- A byte that is not 0 stands before the end of the buffer.
  before_end : (buffer : Text) (n c : ℕ) → get_or buffer n 0 ≡ suc c → n < length buffer
  before_end [] n c e = absurd (omega (arith, e))
  before_end (b ∷ bs) zero c e = omega arith
  before_end (b ∷ bs) (suc n) c e = let rest = before_end bs n c e in omega arith

  round-IsTotal :
      (fuel : ℕ) (n : ℤ) (lst : Replies) (d : Driver)
      → length d.buffer < d.pos + suc fuel
      → ((n' : ℤ) (lst' : Replies) (d' : Driver)
          → 1 ≤ fuel
          → length d'.buffer < d'.pos + fuel
          → IsTotal d' (elements dec fuel n' lst' d'))
      → IsTotal d (elements dec (suc fuel) n lst d)
  unfolding elements
  round-IsTotal fuel n lst d enough ih = elim (Bool-cases (get_or d.buffer d.pos 0 == b'$')) [
    | inl e ↦ rw e (
        go_on-IsTotal d n _ _ (add_bulk-IsMoved d lst _ (parse_bulk_string-IsMoved d))
          (later n ((==_iff _ _).0 e)))
    | inr e ↦ elim (Bool-cases (get_or d.buffer d.pos 0 == b':')) [
      | inl e' ↦
          rw (e, e')
            (go_on-IsTotal d n _ _ (add_integer-IsMoved d lst _ (get_number-IsMoved d))
              (later n ((==_iff _ _).0 e')))
      | inr e' ↦ elim (Bool-cases (get_or d.buffer d.pos 0 == b'*')) [
        | inl e'' ↦
            rw (e, e', e'')
              (add_array-IsTotal d n lst _ _
                (nested-IsTotal d _ _ (get_number-IsMoved d)
                  (λ n' d' same lt. later n' ((==_iff _ _).0 e'') nil d' same lt))
                (later n ((==_iff _ _).0 e'')))
        | inr e'' ↦ rw (e, e', e'') (failed-IsTotal d)
      ]
    ]
  ]
    where
      later :
          {c : ℕ} (n' : ℤ)
          → get_or d.buffer d.pos 0 ≡ suc c
          → (lst' : Replies) (d' : Driver) → d'.buffer ≡ d.buffer
          → d.pos < d'.pos
          → IsTotal d' (elements dec fuel n' lst' d')
      later n' at lst' d' same lt =
          let inside = before_end d.buffer d.pos _ at in
          ih n' lst' d' (omega arith) (omega (arith, ap (λ (bs : Text). length bs) same))

  elements-IsTotal :
      (fuel : ℕ) (n : ℤ) (lst : Replies) (d : Driver)
      → 1 ≤ fuel
      → length d.buffer < d.pos + fuel
      → IsTotal d (elements dec fuel n lst d)
  elements-IsTotal zero n lst d some_fuel enough = absurd (omega arith)
  elements-IsTotal (suc fuel) n lst d some_fuel enough =
      round-IsTotal fuel n lst d enough (λ n' lst' d' p q. elements-IsTotal fuel n' lst' d' p q)

  -- parseArray() ends on every buffer and from every position in it, however deep the arrays are
  -- nested and whatever their counts: it never runs out of its fuel of one round a byte.
  pub parse_array_total : (d : Driver) → (r : Parsed) × (parse_array dec d ≡ some r)
  unfolding parse_array
  parse_array_total d = IsTotal-result d _ (
      nested-IsTotal d _ _ (get_number-IsMoved d) (λ n d' same lt.
        elements-IsTotal (suc (length d.buffer)) n nil d' (omega arith)
          (omega (arith, ap (λ (bs : Text). length bs) same))))
