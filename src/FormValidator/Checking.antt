-- ===== src/FormValidator/Checking.antt =====
-- When TFormValidator::validate() of src/tformvalidator.cpp accepts a form.
use tf.Base.{
  ◌≡◌, refl, ap, ◌∙◌, Bool, true, false, not, ◌&&◌, ◌||◌, List, [], ◌∷◌, ◌++◌, all, inl, inr,
  Bool-cases, arith,
}
use tf.Base.Text.{Text, eq, eq_sound, is_empty}
use tf.FormValidator.Meaning.{holds, not-is_error}
use tf.FormValidator.{
  Rule, Entry, Validator, Qt, value, is_entry, contains_rule, is_error, errors_of, required_entry,
  add_required, has_none, validate,
}

module _ {V D : Type 0} (qt : Qt V D) (form : List (Text × Text)) where
  has_none-errors_of :
      (rs : List (Entry V)) → has_none qt (errors_of qt form rs) ≡ all (holds qt form) rs
  unfolding errors_of
  has_none-errors_of [] = refl
  has_none-errors_of (r ∷ rs) = elim (Bool-cases (is_error qt form r)) [
    | inl q ↦ rw (← not-is_error qt form r, q) refl
    | inr q ↦ rw (← not-is_error qt form r, q) (has_none-errors_of rs)
  ]

  -- A parameter of the form is not empty, or has a rule on whether it is required.
  abbrev pub is_filled : List (Entry V) → Text × Text → Bool
  is_filled rules (k, t) = contains_rule k Rule.required rules || not (is_empty (value k form))

  all-append :
      (rs ss : List (Entry V))
      → all (holds qt form) (rs ++ ss) ≡ (all (holds qt form) rs && all (holds qt form) ss)
  all-append [] ss = refl
  all-append (r ∷ rs) ss = elim (Bool-cases ((holds qt form) r)) [
    | inl q ↦ rw q (all-append rs ss)
    | inr q ↦ rw q refl
  ]

  contains_rule-append :
      (k : Text) (rs : List (Entry V)) (r : Entry V)
      → contains_rule k Rule.required (rs ++ r ∷ [])
        ≡ (contains_rule k Rule.required rs || is_entry k Rule.required r)
  unfolding contains_rule
  contains_rule-append k [] r = ground arith
  contains_rule-append k (x ∷ rs) r = elim (Bool-cases (is_entry k Rule.required x)) [
    | inl q ↦ rw q refl
    | inr q ↦ rw q (contains_rule-append k rs r)
  ]

  module _ (law : qt.to_bool (qt.of_bool true) ≡ true) where
    required_holds :
        (k : Text) → (holds qt form) (required_entry qt k) ≡ not (is_empty (value k form))
    required_holds k = elim (Bool-cases (is_empty (value k form))) [
      | inl q ↦ rw (q, law) refl
      | inr q ↦ rw q refl
    ]

    still_filled :
        (k : Text) (rs : List (Entry V)) (x : Text × Text)
        → is_empty (value k form) ≡ false
        → is_filled (rs ++ required_entry qt k ∷ []) x ≡ is_filled rs x
    still_filled k rs (k', t) h = elim (Bool-cases (contains_rule k' Rule.required rs)) [
      | inl q ↦ rw (contains_rule-append k' rs (required_entry qt k), q) refl
      | inr q ↦ elim (Bool-cases (eq k k')) [
        | inl e ↦
            let same : k ≡ k' = eq_sound k k' e in
            let full : is_empty (value k' form) ≡ false = rw (← same) h in
            rw (contains_rule-append k' rs (required_entry qt k), q, e, full) refl
        | inr e ↦ rw (contains_rule-append k' rs (required_entry qt k), q, e) refl
      ]
    ]

    all-still_filled :
        (k : Text) (rs : List (Entry V)) (ps : List (Text × Text))
        → is_empty (value k form) ≡ false
        → all (is_filled (rs ++ required_entry qt k ∷ [])) ps ≡ all (is_filled rs) ps
    all-still_filled k rs [] h = refl
    all-still_filled k rs (x ∷ ps) h =
        ap (λ b. b && all (is_filled (rs ++ required_entry qt k ∷ [])) ps) (still_filled k rs x h)
        ∙ ap (λ b. is_filled rs x && b) (all-still_filled k rs ps h)

    join :
        (k : Text) (rs : List (Entry V)) (ps : List (Text × Text))
        → ((all (holds qt form) rs && (not (is_empty (value k form)) && true))
            && all (is_filled (rs ++ required_entry qt k ∷ [])) ps)
          ≡ (all (holds qt form) rs && (not (is_empty (value k form)) && all (is_filled rs) ps))
    join k rs ps = elim (Bool-cases (is_empty (value k form))) [
      | inl q ↦ elim (Bool-cases (all (holds qt form) rs)) [
        | inl a ↦ rw (q, a) refl
        | inr a ↦ rw (q, a) refl
      ]
      | inr q ↦
          rw (q, all-still_filled k rs ps q)
            (elim (Bool-cases (all (holds qt form) rs)) [ inl a ↦ rw a refl | inr a ↦ rw a refl ])
    ]

    all-add_required :
        (ps : List (Text × Text)) (rs : List (Entry V))
        → all (holds qt form) (add_required qt ps rs)
          ≡ (all (holds qt form) rs && all (is_filled rs) ps)
    unfolding add_required
    all-add_required [] rs = elim (Bool-cases (all (holds qt form) rs)) [
      | inl q ↦ rw q refl
      | inr q ↦ rw q refl
    ]
    all-add_required ((k, t) ∷ ps) rs = elim (Bool-cases (contains_rule k Rule.required rs)) [
      | inl q ↦ rw q (all-add_required ps rs)
      | inr q ↦ rw q (
          all-add_required ps (rs ++ required_entry qt k ∷ [])
          ∙ ap (λ b. b && all (is_filled (rs ++ required_entry qt k ∷ [])) ps)
              (all-append rs (required_entry qt k ∷ []))
          ∙ ap
              (λ b.
                (all (holds qt form) rs && (b && true))
                && all (is_filled (rs ++ required_entry qt k ∷ [])) ps)
              (required_holds k)
          ∙ join k rs ps)
    ]

    -- validate() accepts a form just if every rule holds for its value, and each parameter of the form
    -- that has no rule on whether it is required is not empty.
    pub validate-holds :
        (v : Validator V)
        → (validate qt form v).0 ≡ (all (holds qt form) v.rules && all (is_filled v.rules) form)
    unfolding validate
    validate-holds v =
        has_none-errors_of (add_required qt form v.rules) ∙ all-add_required form v.rules

    refuses_empty :
        (k : Text) (rest : List (Text × Text)) (rs : List (Entry V))
        → is_empty (value k form) ≡ true
        → all (holds qt form) (add_required qt rest (rs ++ required_entry qt k ∷ [])) ≡ false
    refuses_empty k rest rs h =
        let none_holds : (all (holds qt form) rs && false) ≡ false =
          elim (Bool-cases (all (holds qt form) rs)) [ inl a ↦ rw a refl | inr a ↦ rw a refl ] in
        let e : all (holds qt form) (rs ++ required_entry qt k ∷ []) ≡ false =
          all-append rs (required_entry qt k ∷ [])
          ∙ ap (λ b. all (holds qt form) rs && (b && true)) (required_holds k ∙ ap not h)
          ∙ none_holds in
        all-add_required rest (rs ++ required_entry qt k ∷ [])
        ∙ ap (λ b. b && all (is_filled (rs ++ required_entry qt k ∷ [])) rest) e

-- A validator that has seen a form refuses a later one in which the first parameter of that form,
-- without a rule on whether it is required, is missing or empty.
pub validate-later :
    {V D : Type 0} (qt : Qt V D) (k t : Text) (rest later : List (Text × Text)) (v : Validator V)
    → qt.to_bool (qt.of_bool true) ≡ true
    → contains_rule k Rule.required v.rules ≡ false
    → is_empty (value k later) ≡ true
    → (validate qt later (validate qt ((k, t) ∷ rest) v).1).0 ≡ false
unfolding validate add_required
validate-later qt k t rest later v law c h =
    let rules = add_required qt rest (v.rules ++ required_entry qt k ∷ []) in
    rw c (
      has_none-errors_of qt later (add_required qt later rules)
      ∙ all-add_required qt later law later rules
      ∙ ap (λ b. b && all (is_filled qt later rules) later)
          (refuses_empty qt later law k rest v.rules h))
