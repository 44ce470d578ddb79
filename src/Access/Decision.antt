-- ===== src/Access/Decision.antt =====
-- How validate() of src/taccessvalidator.cpp decides.
use tf.Base.{◌≡◌, refl, Bool, true, false, List, [], ◌∷◌, ◌++◌, Option, any, arith}
use tf.Base.Text.{Text}
use tf.Access.{Kind, Rule, Validator, User, add_rules, first_answer, covers, validate}

-- A rule of the validator that covers the call.
abbrev pub is_decided : Text → Option User → Validator → Bool
is_decided action u v = any (covers action u) v.access_rules

first_answer-decided :
    (test : Rule → Bool) (ret ret' : Bool) (rules more : List Rule)
    → any test rules ≡ true
    → first_answer test ret (rules ++ more) ≡ first_answer test ret' rules
unfolding first_answer
first_answer-decided test ret ret' [] more h = cc
first_answer-decided test ret ret' (r ∷ rules) more h =
    ground (arith, first_answer-decided test ret ret' rules more)

first_answer-undecided :
    (test : Rule → Bool) (ret : Bool) (rules more : List Rule)
    → any test rules ≡ false
    → first_answer test ret (rules ++ more) ≡ first_answer test ret more
unfolding first_answer
first_answer-undecided test ret [] more h = refl
first_answer-undecided test ret (r ∷ rules) more h =
    ground (arith, first_answer-undecided test ret rules more)

-- Rules that were set earlier take precedence: once a rule covers the call, no rule that is set
-- after it, of whatever kind, changes the answer, and neither does the default.
pub validate-add_rules :
    (action : Text) (u : Option User) (v : Validator) (kind : Kind) (key : Text)
    (actions : List Text) (allow default : Bool)
    → is_decided action u v ≡ true
    → validate action u (add_rules kind key actions allow (record v { allow_default = default }))
      ≡ validate action u v
unfolding validate add_rules
validate-add_rules action u v kind key actions allow default h =
    first_answer-decided (covers action u) default v.allow_default v.access_rules _ h

-- The answer while no rule covers the call is that of the rules set from then on.
pub validate-undecided :
    (action : Text) (u : Option User) (v : Validator) (more : List Rule)
    → is_decided action u v ≡ false
    → validate action u (record v { access_rules = v.access_rules ++ more })
      ≡ first_answer (covers action u) v.allow_default more
unfolding validate
validate-undecided action u v more h =
    first_answer-undecided (covers action u) v.allow_default v.access_rules more h
