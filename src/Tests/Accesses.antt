-- ===== src/Tests/Accesses.antt =====
-- Runs of the code of src/taccessvalidator.cpp.
use tf.Base.{◌≡◌, refl, true, false, [], ◌∷◌, some}
use tf.Base.Text.{codes, eq}
use tf.Access.{Validator, User, user, group, add_rules, covers, validate, covers_user}
use tf.Access.Decision.{is_decided, validate-add_rules}
use tf.Access.Grants.{IsMember}

abbrev alice : User
alice = record { identity_key = codes "alice"; group_key = codes "staff" }

alice-IsMember : IsMember alice
alice-IsMember = record { identity = refl; member = refl }

-- Nobody may do anything, and guests have a rule.
abbrev closed : Validator
closed = record { allow_default = false; access_rules = [] }

abbrev opened : Validator
opened = record {
  allow_default = false;
  access_rules =
      record { kind = group; key = codes "staff"; action = codes "edit"; allow = true } ∷ [];
}

opened-is_decided : is_decided (codes "edit") (some alice) opened ≡ true
unfolding covers covers_user eq
opened-is_decided = refl

validate-add_rules_example :
    validate (codes "edit") (some alice) (
      add_rules user
        (codes "alice")
        (codes "edit" ∷ [])
        false
        (record opened { allow_default = true }))
    ≡ validate (codes "edit") (some alice) opened
validate-add_rules_example =
    validate-add_rules (codes "edit") (some alice) opened user (codes "alice") (codes "edit" ∷ [])
      false true opened-is_decided
