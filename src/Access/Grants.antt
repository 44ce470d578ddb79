-- ===== src/Access/Grants.antt =====
-- What the setters of src/taccessvalidator.cpp grant and refuse.
use tf.Base.{◌≡◌, refl, ◌∙◌, Bool, true, false, List, [], ◌∷◌, some, map, any, if◌then◌else◌, arith}
use tf.Base.Text.{Text, eq, eq_refl, is_empty}
use tf.Access.{
  Kind, group, user, Rule, Validator, User, add_rules, first_answer, covers, covers_user, validate,
  set_allow_group, set_deny_user,
}
use tf.Access.Decision.{is_decided, validate-undecided}

-- Rules that differ in the action only answer for the actions that they name.
first_answer-actions :
    (test : Rule → Bool) (kind : Kind) (key : Text) (allow ret : Bool) (action : Text)
    (actions : List Text)
    → ((a : Text)
        → test (record { kind = kind; key = key; action = a; allow = allow }) ≡ eq a action)
    → first_answer test ret
        (map (λ act. record { kind = kind; key = key; action = act; allow = allow }) actions)
      ≡ (if any (λ a. eq a action) actions then allow else ret)
unfolding first_answer
first_answer-actions test kind key allow ret action [] h = refl
first_answer-actions test kind key allow ret action (a ∷ actions) h =
    rw (h a) (ground (arith, first_answer-actions test kind key allow ret action actions h))

-- A signed-in user, with a group.
pub record IsMember (u : User) : Type 0 where
  pub identity : is_empty u.identity_key ≡ false
  pub member : is_empty u.group_key ≡ false

covers-key :
    (action : Text) (u : User) (kind : Kind) (a : Text) (allow : Bool)
    → IsMember u
    → covers action (some u) (record { kind = kind; key = u.group_key; action = a; allow = allow })
      ≡ eq a action
unfolding covers covers_user
covers-key action u kind a allow h = rw (h.identity, h.member, eq_refl u.group_key) (ground arith)

-- A rule for a key answers for the users of the group of that key, of whatever kind it is.
validate-key :
    (action : Text) (u : User) (v : Validator) (kind : Kind) (actions : List Text) (allow : Bool)
    → IsMember u
    → is_decided action (some u) v ≡ false
    → validate action (some u) (add_rules kind u.group_key actions allow v)
      ≡ (if any (λ a. eq a action) actions then allow else v.allow_default)
unfolding add_rules
validate-key action u v kind actions allow h none_yet =
    validate-undecided action (some u) v _ none_yet
    ∙ first_answer-actions (covers action (some u)) kind u.group_key allow v.allow_default action
        actions (λ a. covers-key action u kind a allow h)

-- Where no rule covers the call of a member of a group yet, setAllowGroup() for the group allows
-- just the actions that it names, and leaves the others to the default.
pub validate-set_allow_group :
    (action : Text) (u : User) (v : Validator) (actions : List Text)
    → IsMember u
    → is_decided action (some u) v ≡ false
    → validate action (some u) (set_allow_group u.group_key actions v)
      ≡ (if any (λ a. eq a action) actions then true else v.allow_default)
unfolding set_allow_group
validate-set_allow_group action u v actions h none_yet =
    validate-key action u v group actions true h none_yet

-- validate() does not look at the kind of a rule when it compares the key with the group of the
-- user: where no rule covers the call yet, setDenyUser() with an identity that is also the name of
-- a group denies the actions to every member of that group.
pub validate-set_deny_user :
    (action : Text) (u : User) (v : Validator) (actions : List Text)
    → IsMember u
    → is_decided action (some u) v ≡ false
    → validate action (some u) (set_deny_user u.group_key actions v)
      ≡ (if any (λ a. eq a action) actions then false else v.allow_default)
unfolding set_deny_user
validate-set_deny_user action u v actions h none_yet =
    validate-key action u v user actions false h none_yet
