-- ===== src/FormValidator.antt =====
-- src/tformvalidator.h and src/tformvalidator.cpp: TFormValidator, with the rules of a form and the
-- errors of the last validation. A QVariant and what Qt tells of it and of texts are parameters.
pub mod Rules
pub mod Meaning
pub mod Checking
use tf.Base.{
  ℕ, Bool, true, false, not, ◌&&◌, ◌||◌, List, [], ◌∷◌, ◌++◌, Option, none, some, if◌then◌else◌,
  ◌==◌, ltb, length, any,
}
use tf.Base.Int.{ℤ, pos, negsuc, ltb_ℤ}
use tf.Base.Text.{Text, codes, eq, is_empty}

-- Tf::ValidationRule
pub data Rule : Type 0 where
  required max_length min_length int_max int_min double_max double_min email_address url date time :
      Rule
  date_time pattern custom : Rule

abbrev pub number_of : Rule → ℕ
number_of Rule.required = 0
number_of Rule.max_length = 1
number_of Rule.min_length = 2
number_of Rule.int_max = 3
number_of Rule.int_min = 4
number_of Rule.double_max = 5
number_of Rule.double_min = 6
number_of Rule.email_address = 7
number_of Rule.url = 8
number_of Rule.date = 9
number_of Rule.time = 10
number_of Rule.date_time = 11
number_of Rule.pattern = 12
number_of Rule.custom = 13

abbrev pub same_rule : Rule → Rule → Bool
same_rule a b = number_of a == number_of b

-- class RuleEntry
pub record Entry (V : Type 0) : Type 0 where
  pub key : Text
  pub rule : Rule
  pub value : V
  pub message : Text

-- The formats of dates and times, and the values of a form, are those of the last validation.
pub record Validator (V : Type 0) : Type 0 where
  pub rules : List (Entry V)
  pub errors : List (Text × Rule)
  pub form : List (Text × Text)

-- TFormValidator()
abbrev pub new : {V : Type 0} → Validator V
new = record { rules = []; errors = []; form = [] }

-- QVariant, numbers in double precision with the order of them, regular expressions, locales and URLs
-- of Qt, and the messages of the settings.
pub record Qt (V D : Type 0) : Type 0 where
  pub of_bool : Bool → V
  pub to_bool : V → Bool
  pub to_int : V → Option ℤ
  pub to_long_long : V → Option ℤ
  pub text_to_long_long : Text → Option ℤ
  pub text_to_double : Text → Option D
  pub to_double : V → Option D
  pub less : D → D → Bool
  pub is_addr_spec : Text → Bool
  pub is_url : Text → Bool
  pub is_date : Text → Bool
  pub is_time : Text → Bool
  pub is_date_time : Text → Bool
  pub is_empty_pattern : V → Bool
  pub exact_match : V → Text → Bool
  pub default_message : Rule → Text

-- map.value(key).toString()
unfoldable pub value : Text → List (Text × Text) → Text
value key [] = []
value key ((k, t) ∷ rest) = if eq k key then t else value key rest

-- isValidationError() and errorRule()
unfoldable pub is_validation_error : Text → List (Text × Rule) → Bool
is_validation_error key [] = false
is_validation_error key ((k, r) ∷ rest) = eq k key || is_validation_error key rest

unfoldable pub error_rule : Text → List (Text × Rule) → Rule
error_rule key [] = Rule.required
error_rule key ((k, r) ∷ rest) = if eq k key then r else error_rule key rest

module _ {V : Type 0} where
  abbrev pub is_entry : Text → Rule → Entry V → Bool
  is_entry key rule r = eq r.key key && same_rule r.rule rule

  -- containsRule()
  unfoldable pub contains_rule : Text → Rule → List (Entry V) → Bool
  contains_rule key rule [] = false
  contains_rule key rule (r ∷ rs) = is_entry key rule r || contains_rule key rule rs

  -- removeRule()
  unfoldable pub remove_rule : Text → Rule → List (Entry V) → List (Entry V)
  remove_rule key rule [] = []
  remove_rule key rule (r ∷ rs) =
      if is_entry key rule r then remove_rule key rule rs else r ∷ remove_rule key rule rs

  -- message()
  unfoldable pub message : Text → Rule → List (Entry V) → Text
  message key rule [] = []
  message key rule (r ∷ rs) = if is_entry key rule r then r.message else message key rule rs

  -- errorMessage(key)
  unfoldable pub error_message : Text → Validator V → Text
  error_message key v = message key (error_rule key v.errors) v.rules

-- The rules that setRule() refuses, by the type of their value.
abbrev pub refuses_bool : Rule → Bool
refuses_bool rule = ltb 0 (number_of rule) && ltb (number_of rule) 7 || same_rule rule Rule.pattern

abbrev pub refuses_integer : Rule → Bool
refuses_integer rule = number_of rule == 0 || ltb 6 (number_of rule) && ltb (number_of rule) 13

abbrev pub refuses_double : Rule → Bool
refuses_double rule = ltb (number_of rule) 5 || ltb 6 (number_of rule) && ltb (number_of rule) 13

-- Whether a number is missing, or is not on the right side of the other.
abbrev pub out_of : {A : Type 0} → (A → A → Bool) → Option A → Option A → Bool
out_of bad none o = true
out_of bad (some n) none = true
out_of bad (some n) (some m) = bad n m

module _ {V D : Type 0} (qt : Qt V D) where
  abbrev pub message_or_default : Rule → Text → Text
  message_or_default rule m = if is_empty m then qt.default_message rule else m

  abbrev pub put_rule : Text → Rule → V → Text → Validator V → Validator V
  put_rule key rule val m v = record v {
    rules =
        record { key = key; rule = rule; value = val; message = message_or_default rule m }
        ∷ remove_rule key rule v.rules;
  }

  -- The overloads of setRule(), by the test for the type of the value.
  unfoldable pub set_rule : (Rule → Bool) → Text → Rule → V → Text → Validator V → Validator V
  set_rule refuses key rule val m v = if refuses rule then v else put_rule key rule val m v

  -- setPatternRule()
  unfoldable pub set_pattern_rule : Text → V → Text → Validator V → Validator V
  set_pattern_rule key rx m v = put_rule key Rule.pattern rx m v

  -- A rule on a text that is not empty: true is an error.
  unfoldable pub breaks : Rule → V → Text → Bool
  breaks Rule.required val str = false
  breaks Rule.max_length val str =
      out_of (λ n m. ltb_ℤ m n) (some (pos (length str))) (qt.to_int val)
  breaks Rule.min_length val str =
      out_of (λ n m. ltb_ℤ n m) (some (pos (length str))) (qt.to_int val)
  breaks Rule.int_max val str =
      out_of (λ n m. ltb_ℤ m n) (qt.text_to_long_long str) (qt.to_long_long val)
  breaks Rule.int_min val str =
      out_of (λ n m. ltb_ℤ n m) (qt.text_to_long_long str) (qt.to_long_long val)
  breaks Rule.double_max val str =
      out_of (λ n m. qt.less m n) (qt.text_to_double str) (qt.to_double val)
  breaks Rule.double_min val str =
      out_of (λ n m. qt.less n m) (qt.text_to_double str) (qt.to_double val)
  breaks Rule.email_address val str = qt.to_bool val && not (qt.is_addr_spec str)
  breaks Rule.url val str = qt.to_bool val && not (qt.is_url str)
  breaks Rule.date val str = qt.to_bool val && not (qt.is_date str)
  breaks Rule.time val str = qt.to_bool val && not (qt.is_time str)
  breaks Rule.date_time val str = qt.to_bool val && not (qt.is_date_time str)
  breaks Rule.pattern val str = qt.is_empty_pattern val || not (qt.exact_match val str)
  breaks Rule.custom val str = false

  -- A round of the loop over the rules.
  unfoldable pub is_error : List (Text × Text) → Entry V → Bool
  is_error form r =
      let str = value r.key form in
      if is_empty str
      then same_rule r.rule Rule.required && qt.to_bool r.value
      else breaks r.rule r.value str

  unfoldable pub errors_of : List (Text × Text) → List (Entry V) → List (Text × Rule)
  errors_of form [] = []
  errors_of form (r ∷ rs) =
      if is_error form r then (r.key, r.rule) ∷ errors_of form rs else errors_of form rs

  abbrev pub required_entry : Text → Entry V
  required_entry key = record {
    key = key;
    rule = Rule.required;
    value = qt.of_bool true;
    message = qt.default_message Rule.required;
  }

  -- "Add default rules, Tf::Required."
  unfoldable pub add_required : List (Text × Text) → List (Entry V) → List (Entry V)
  add_required [] rules = rules
  add_required ((k, t) ∷ form) rules =
      add_required form
        (if contains_rule k Rule.required rules then rules else rules ++ required_entry k ∷ [])

  abbrev pub has_none : List (Text × Rule) → Bool
  has_none [] = true
  has_none (x ∷ xs) = false

  -- validate()
  unfoldable pub validate : List (Text × Text) → Validator V → Bool × Validator V
  validate form v =
      let rules = add_required form v.rules in
      let errors = errors_of form rules in
      (has_none errors, record { rules = rules; errors = errors; form = form })

  -- setValidationError(key, errorMessage)
  unfoldable pub set_validation_error : Text → Text → Validator V → Validator V
  set_validation_error key m v = record v {
    errors = v.errors ++ (key, Rule.custom) ∷ [];
    rules =
        v.rules
        ++ record { key = key; rule = Rule.custom; value = qt.of_bool true; message = m } ∷ [];
  }
