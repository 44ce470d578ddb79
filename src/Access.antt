-- ===== src/Access.antt =====
-- src/taccessvalidator.h and src/taccessvalidator.cpp: the rules that say which users may call which
-- actions. The active action of the controller is an argument; a null user is `none`.
use tf.Base.{
  Bool, true, false, not, ◌&&◌, ◌||◌, List, [], ◌∷◌, ◌++◌, Option, none, some, map, if◌then◌else◌,
}
use tf.Base.Text.{Text, eq, is_empty}
pub mod Decision
pub mod Grants

-- AccessRule::Type
pub data Kind : Type 0 where
  group user unauthenticated_user : Kind

pub record Rule : Type 0 where
  pub kind : Kind
  pub key : Text
  pub action : Text
  pub allow : Bool

pub record Validator : Type 0 where
  pub allow_default : Bool
  pub access_rules : List Rule

-- TAccessValidator()
abbrev pub new : Validator
new = record { allow_default = true; access_rules = [] }

-- The keys of a TAbstractUser.
pub record User : Type 0 where
  pub identity_key : Text
  pub group_key : Text

unfoldable pub set_allow_default : Bool → Validator → Validator
set_allow_default allow v = record v { allow_default = allow }

unfoldable pub set_deny_default : Bool → Validator → Validator
set_deny_default deny v = record v { allow_default = not deny }

unfoldable pub add_rules : Kind → Text → List Text → Bool → Validator → Validator
add_rules kind key actions allow v = record v {
  access_rules =
      v.access_rules
      ++ map (λ act. record { kind = kind; key = key; action = act; allow = allow }) actions;
}

unfoldable pub set_allow_group : Text → List Text → Validator → Validator
set_allow_group group_key actions v = add_rules group group_key actions true v

unfoldable pub set_deny_group : Text → List Text → Validator → Validator
set_deny_group group_key actions v = add_rules group group_key actions false v

unfoldable pub set_allow_user : Text → List Text → Validator → Validator
set_allow_user identity_key actions v = add_rules user identity_key actions true v

unfoldable pub set_deny_user : Text → List Text → Validator → Validator
set_deny_user identity_key actions v = add_rules user identity_key actions false v

unfoldable pub set_allow_unauthenticated_user : List Text → Validator → Validator
set_allow_unauthenticated_user actions v = add_rules unauthenticated_user [] actions true v

unfoldable pub set_deny_unauthenticated_user : List Text → Validator → Validator
set_deny_unauthenticated_user actions v = add_rules unauthenticated_user [] actions false v

unfoldable pub clear : Validator → Validator
clear v = record v { access_rules = []; allow_default = true }

abbrev pub is_user : Kind → Bool
is_user user = true
is_user _ = false

abbrev pub is_unauthenticated : Kind → Bool
is_unauthenticated unauthenticated_user = true
is_unauthenticated _ = false

-- The conditions of the two loops of validate().
unfoldable pub covers_anyone : Text → Rule → Bool
covers_anyone action rule = is_unauthenticated rule.kind && eq rule.action action

unfoldable pub covers_user : Text → User → Rule → Bool
covers_user action u rule =
    eq rule.action action
    && ((is_user rule.kind && eq rule.key u.identity_key)
        || (not (is_empty u.group_key) && eq rule.key u.group_key))

-- A loop: the answer of the first rule that the condition holds of.
unfoldable pub first_answer : (Rule → Bool) → Bool → List Rule → Bool
first_answer covers ret [] = ret
first_answer covers ret (rule ∷ rules) =
    if covers rule then rule.allow else first_answer covers ret rules

unfoldable pub covers : Text → Option User → Rule → Bool
covers action none = covers_anyone action
covers action (some u) =
    if is_empty u.identity_key then covers_anyone action else covers_user action u

-- validate(user)
unfoldable pub validate : Text → Option User → Validator → Bool
validate action u v = first_answer (covers action u) v.allow_default v.access_rules
