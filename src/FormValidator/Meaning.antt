-- ===== src/FormValidator/Meaning.antt =====
-- What the rules of src/tformvalidator.cpp mean for a value, and that the code checks just this.
use tf.Base.{
  ◌≡◌, refl, Bool, true, false, not, ◌&&◌, ◌||◌, List, inl, inr, leb, length, Option, none, some,
  if◌then◌else◌, Bool-cases, arith,
}
use tf.Base.Text.{Text, is_empty}
use tf.Base.Int.{ℤ, pos, negsuc, ltb_ℤ}
use tf.FormValidator.{
  Rule, same_rule, Entry, Validator, Qt, value, is_entry, contains_rule, is_error, errors_of,
  required_entry, add_required, has_none, validate, out_of, breaks,
}

abbrev pub at_most : ℤ → ℤ → Bool
at_most (pos n) (pos m) = leb n m
at_most (pos n) (negsuc m) = false
at_most (negsuc n) (pos m) = true
at_most (negsuc n) (negsuc m) = leb m n

abbrev pub at_least : ℤ → ℤ → Bool
at_least n m = at_most m n

-- Both numbers are there and stand in the order.
abbrev pub both : {A : Type 0} → (A → A → Bool) → Option A → Option A → Bool
both order (some n) (some m) = order n m
both order _ _ = false

at_most_lem : (n m : ℤ) → not (ltb_ℤ m n) ≡ at_most n m
at_most_lem (pos n) (pos m) = ground arith
at_most_lem (pos n) (negsuc m) = ground arith
at_most_lem (negsuc n) (pos m) = ground arith
at_most_lem (negsuc n) (negsuc m) = ground arith

at_least_lem : (n m : ℤ) → not (ltb_ℤ n m) ≡ at_least n m
at_least_lem n m = at_most_lem m n

not-and : (b c : Bool) → not (b && not c) ≡ (not b || c)
not-and b c = ground arith

not-or : (b c : Bool) → not (b || not c) ≡ (not b && c)
not-or b c = ground arith

both_lem :
    {A : Type 0} (bad good : A → A → Bool)
    → ((n m : A) → not (bad n m) ≡ good n m)
    → (o p : Option A) → not (out_of bad o p) ≡ both good o p
both_lem bad good h none p = refl
both_lem bad good h (some n) none = refl
both_lem bad good h (some n) (some m) = h n m

module _ {V D : Type 0} (qt : Qt V D) (form : List (Text × Text)) where
  -- What the rules ask of a text that is not empty.
  abbrev pub allowed : Rule → V → Text → Bool
  allowed Rule.required val str = true
  allowed Rule.max_length val str = both at_most (some (pos (length str))) (qt.to_int val)
  allowed Rule.min_length val str = both at_least (some (pos (length str))) (qt.to_int val)
  allowed Rule.int_max val str = both at_most (qt.text_to_long_long str) (qt.to_long_long val)
  allowed Rule.int_min val str = both at_least (qt.text_to_long_long str) (qt.to_long_long val)
  allowed Rule.double_max val str =
      both (λ n m. not (qt.less m n)) (qt.text_to_double str) (qt.to_double val)
  allowed Rule.double_min val str =
      both (λ n m. not (qt.less n m)) (qt.text_to_double str) (qt.to_double val)
  allowed Rule.email_address val str = not (qt.to_bool val) || qt.is_addr_spec str
  allowed Rule.url val str = not (qt.to_bool val) || qt.is_url str
  allowed Rule.date val str = not (qt.to_bool val) || qt.is_date str
  allowed Rule.time val str = not (qt.to_bool val) || qt.is_time str
  allowed Rule.date_time val str = not (qt.to_bool val) || qt.is_date_time str
  allowed Rule.pattern val str = not (qt.is_empty_pattern val) && qt.exact_match val str
  allowed Rule.custom val str = true

  -- An empty text is refused only where it is required.
  abbrev pub optional : Rule → V → Bool
  optional Rule.required val = not (qt.to_bool val)
  optional _ val = true

  -- A rule holds for the value of its parameter.
  abbrev pub holds : Entry V → Bool
  holds r =
      if is_empty (value r.key form)
      then optional r.rule r.value
      else allowed r.rule r.value (value r.key form)

  optional_lem :
      (rule : Rule) (val : V)
      → not (same_rule rule Rule.required && qt.to_bool val) ≡ optional rule val
  optional_lem Rule.required val = refl
  optional_lem _ val = refl

  allowed_lem :
      (rule : Rule) (val : V) (str : Text) → not (breaks qt rule val str) ≡ allowed rule val str
  unfolding tf.FormValidator.breaks
  allowed_lem Rule.required val str = refl
  allowed_lem Rule.max_length val str =
      both_lem (λ n m. ltb_ℤ m n) at_most at_most_lem (some (pos (length str))) (qt.to_int val)
  allowed_lem Rule.min_length val str =
      both_lem (λ n m. ltb_ℤ n m) at_least at_least_lem (some (pos (length str))) (qt.to_int val)
  allowed_lem Rule.int_max val str =
      both_lem (λ n m. ltb_ℤ m n) at_most at_most_lem (qt.text_to_long_long str)
        (qt.to_long_long val)
  allowed_lem Rule.int_min val str =
      both_lem (λ n m. ltb_ℤ n m) at_least at_least_lem (qt.text_to_long_long str)
        (qt.to_long_long val)
  allowed_lem Rule.double_max val str =
      both_lem (λ n m. qt.less m n) (λ n m. not (qt.less m n)) (λ n m. refl) (qt.text_to_double str)
        (qt.to_double val)
  allowed_lem Rule.double_min val str =
      both_lem (λ n m. qt.less n m) (λ n m. not (qt.less n m)) (λ n m. refl) (qt.text_to_double str)
        (qt.to_double val)
  allowed_lem Rule.email_address val str = not-and (qt.to_bool val) (qt.is_addr_spec str)
  allowed_lem Rule.url val str = not-and (qt.to_bool val) (qt.is_url str)
  allowed_lem Rule.date val str = not-and (qt.to_bool val) (qt.is_date str)
  allowed_lem Rule.time val str = not-and (qt.to_bool val) (qt.is_time str)
  allowed_lem Rule.date_time val str = not-and (qt.to_bool val) (qt.is_date_time str)
  allowed_lem Rule.pattern val str = not-or (qt.is_empty_pattern val) (qt.exact_match val str)
  allowed_lem Rule.custom val str = refl

  -- The code calls just the rules errors that do not hold.
  pub not-is_error : (r : Entry V) → not (is_error qt form r) ≡ holds r
  unfolding is_error
  not-is_error r = elim (Bool-cases (is_empty (value r.key form))) [
    | inl q ↦ rw q (optional_lem r.rule r.value)
    | inr q ↦ rw q (allowed_lem r.rule r.value (value r.key form))
  ]
