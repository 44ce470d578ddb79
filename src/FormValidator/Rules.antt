-- ===== src/FormValidator/Rules.antt =====
-- The rules that the functions of src/tformvalidator.cpp set.
use tf.Base.{
  ◌≡◌, refl, ◌∙◌, Bool, true, false, ◌&&◌, List, [], ◌∷◌, if◌then◌else◌, inl, inr, Bool-cases,
  arith,
}
use tf.Base.Text.{Text, eq, eq_sound}
use tf.FormValidator.{
  Rule, number_of, same_rule, Entry, Validator, Qt, is_entry, contains_rule, remove_rule, message,
  set_rule, message_or_default,
}

module _ {V : Type 0} where
  -- An entry is for one key and one rule.
  is_entry_unique :
      (key key' : Text) (rule rule' : Rule) (r : Entry V)
      → is_entry key rule r ≡ true
      → is_entry key' rule' r ≡ (eq key key' && same_rule rule rule')
  is_entry_unique key key' rule rule' r h =
      let k : r.key ≡ key = eq_sound r.key key (ground arith) in
      let n : number_of r.rule ≡ number_of rule = ground arith in rw (k, n) refl

  message-remove_rule :
      (key key' : Text) (rule rule' : Rule) (rs : List (Entry V))
      → (eq key key' && same_rule rule rule') ≡ false
      → message key' rule' (remove_rule key rule rs) ≡ message key' rule' rs
  unfolding message remove_rule
  message-remove_rule key key' rule rule' [] h = refl
  message-remove_rule key key' rule rule' (r ∷ rs) h = elim (Bool-cases (is_entry key rule r)) [
    | inl q ↦
        let other : is_entry key' rule' r ≡ false = is_entry_unique key key' rule rule' r q ∙ h in
        rw (q, other) (message-remove_rule key key' rule rule' rs h)
    | inr q ↦ elim (Bool-cases (is_entry key' rule' r)) [
      | inl q' ↦ rw (q, q') refl
      | inr q' ↦ rw (q, q') (message-remove_rule key key' rule rule' rs h)
    ]
  ]

  contains_rule-remove_rule :
      (key : Text) (rule : Rule) (rs : List (Entry V))
      → contains_rule key rule (remove_rule key rule rs) ≡ false
  unfolding contains_rule remove_rule
  contains_rule-remove_rule key rule [] = refl
  contains_rule-remove_rule key rule (r ∷ rs) = elim (Bool-cases (is_entry key rule r)) [
    | inl q ↦ rw q (contains_rule-remove_rule key rule rs)
    | inr q ↦ rw (q, q) (contains_rule-remove_rule key rule rs)
  ]

module _ {V D : Type 0} (qt : Qt V D) where
  -- After setRule() with a rule that its overload takes, message() gives the new message for its key
  -- and its rule, or the default one for an empty message, and for all others what it gave before.
  pub message-set_rule :
      (refuses : Rule → Bool) (key key' : Text) (rule rule' : Rule) (val : V) (m : Text)
      (v : Validator V)
      → refuses rule ≡ false
      → message key' rule' (set_rule qt refuses key rule val m v).rules ≡ (
          if eq key key' && same_rule rule rule'
          then message_or_default qt rule m
          else message key' rule' v.rules)
  unfolding message set_rule
  message-set_rule refuses key key' rule rule' val m v ok =
      elim (Bool-cases (eq key key' && same_rule rule rule')) [
        | inl q ↦ rw (ok, q) refl
        | inr q ↦ rw (ok, q) (message-remove_rule key key' rule rule' v.rules q)
      ]
