-- ===== src/Tests/Forms.antt =====
-- Runs of the code of src/tformvalidator.cpp, with numbers as the values of rules.
use tf.Base.{
  ℕ, ◌≡◌, refl, Bool, true, false, not, ◌&&◌, List, [], ◌∷◌, Option, none, some, if◌then◌else◌,
  ◌==◌, all, length, ltb,
}
use tf.Base.Int.{pos}
use tf.Base.Text.{Text, codes, eq}
use tf.FormValidator.{
  Rule, Entry, Validator, Qt, new, validate, set_rule, refuses_integer, contains_rule, value,
  is_error, errors_of, add_required, breaks, remove_rule,
}
use tf.FormValidator.Meaning.{holds}
use tf.FormValidator.Checking.{is_filled, validate-holds, validate-later}

abbrev numbers : Qt ℕ ℕ
numbers = record {
  of_bool = λ b. if b then 1 else 0;
  to_bool = λ n. not (n == 0);
  to_int = λ n. some (pos n);
  to_long_long = λ n. some (pos n);
  text_to_long_long = λ t. none;
  text_to_double = λ t. some (length t);
  to_double = λ n. some n;
  less = ltb;
  is_addr_spec = λ t. false;
  is_url = λ t. false;
  is_date = λ t. false;
  is_time = λ t. false;
  is_date_time = λ t. false;
  is_empty_pattern = λ n. false;
  exact_match = λ n t. true;
  default_message = λ r. codes "wrong";
}

-- A name of three letters at most.
abbrev named : Validator ℕ
named = set_rule numbers refuses_integer (codes "name") Rule.max_length 3 [] new

abbrev form : List (Text × Text)
form = (codes "mail", codes "x") ∷ (codes "name", codes "Bob") ∷ []

abbrev later : List (Text × Text)
later = (codes "name", codes "Ann") ∷ []

validate-holds_example :
    (validate numbers form named).0
    ≡ (all (holds numbers form) named.rules && all (is_filled numbers form named.rules) form)
validate-holds_example = validate-holds numbers form refl named

no_rule : contains_rule (codes "mail") Rule.required named.rules ≡ false
unfolding contains_rule set_rule remove_rule eq
no_rule = refl

no_mail : tf.FormValidator.Checking.is_filled numbers later [] (codes "mail", []) ≡ false
unfolding value eq contains_rule
no_mail = refl

later-empty : tf.Base.Text.is_empty (value (codes "mail") later) ≡ true
unfolding value eq
later-empty = refl

-- A new validator with the same rule accepts the later form.
validate-fresh : (validate numbers later named).0 ≡ true
unfolding validate add_required errors_of is_error breaks contains_rule set_rule remove_rule value
    eq
validate-fresh = refl
