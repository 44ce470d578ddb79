-- ===== src/Route/Matching.antt =====
-- The search by positions of src/turlroute.cpp against a definition of a match component by
-- component.
use tf.Base.{
  ℕ, suc, ◌+◌, ◌-◌, ◌<◌, ◌≡◌, refl, ap, ◌∙◌, Bool, true, false, not, ◌&&◌, List, [], ◌∷◌, Option,
  none, some, length, map, any, ltb, ◌==◌, if◌then◌else◌, arith, Bool-cases, inl, inr,
}
use mathlib.Core.Option
use native.Mathlib.Numerals.{add-one}
use tf.Base.Text.{Text, eq, eq_iff, starts_with}
use tf.Route.Parse.{param, params, indexes_from, is_variable, component_valid}
use tf.Route.Find.{keywords_match, remove_at, remove_keywords}

-- What a pattern means: a keyword stands for itself, `:param` for one component and `:params`, at
-- the end, for all that are left. The result is what the variables stand for.
unfoldable pub bind_pattern : List Text → List Text → Option (List Text)
bind_pattern [] [] = some []
bind_pattern [] (c ∷ cs) = none
bind_pattern (k ∷ []) [] = if eq k params then some [] else none
bind_pattern (k ∷ l ∷ ks) [] = none
bind_pattern (k ∷ ks) (c ∷ cs) =
    if eq k params
    then some (c ∷ cs)
    else if eq k param
    then Option.map (λ ps. c ∷ ps) (bind_pattern ks cs)
    else if eq c k
    then bind_pattern ks cs
    else none

-- The variable `:params` stands at the end only, and other components with a colon do not occur.
abbrev pub IsPattern : List Text → Type 0
IsPattern [] = Unit
IsPattern (k ∷ []) = component_valid k ≡ true
IsPattern (k ∷ l ∷ ks) = (component_valid k ≡ true) × (eq k params ≡ false) × IsPattern (l ∷ ks)

-- What the search of the source makes of a pattern.
abbrev pub long_enough : Bool → ℕ → ℕ → Bool
long_enough variable m n = if variable then not (ltb m (n - 1)) else m == n

abbrev pub fits : List Text → List Text → Bool
fits pattern components =
    long_enough (any (λ c. eq c params) pattern) (length components) (length pattern)

unfoldable pub bind_indexes : List Text → List Text → Option (List Text)
bind_indexes pattern components =
    if fits pattern components && keywords_match (indexes_from 0 pattern) pattern components
    then some (remove_keywords (indexes_from 0 pattern) components)
    else none

-- The positions in a list with one more component at its front are one higher.
indexes_from-suc : (i : ℕ) (ks : List Text) → indexes_from (suc i) ks ≡ map suc (indexes_from i ks)
unfolding indexes_from
indexes_from-suc i [] = refl
indexes_from-suc i (k ∷ ks) = ground (
  arith,
  indexes_from-suc (i + 1) ks,
  ap (λ (n : ℕ). indexes_from n ks) (add-one (suc i)),
  ap (λ (n : ℕ). indexes_from n ks) (add-one i),
)

keywords_match-cons :
    (idxs : List ℕ) (k c : Text) (ks cs : List Text)
    → keywords_match (map suc idxs) (k ∷ ks) (c ∷ cs) ≡ keywords_match idxs ks cs
unfolding keywords_match
keywords_match-cons [] k c ks cs = refl
keywords_match-cons (i ∷ idxs) k c ks cs = rw (keywords_match-cons idxs k c ks cs)

remove_keywords-cons :
    (idxs : List ℕ) (c : Text) (cs : List Text)
    → remove_keywords (map suc idxs) (c ∷ cs) ≡ c ∷ remove_keywords idxs cs
unfolding remove_keywords remove_at
remove_keywords-cons [] c cs = refl
remove_keywords-cons (i ∷ idxs) c cs = rw (remove_keywords-cons idxs c cs)

long_enough-suc :
    (v : Bool) (m n : ℕ) → (v ≡ true → 0 < n) → long_enough v (suc m) (suc n) ≡ long_enough v m n
long_enough-suc true m n h = let pos : 0 < n = h refl in ground arith
long_enough-suc false m n h = ground arith

fits-cons :
    (k c : Text) (ks cs : List Text) → eq k params ≡ false → fits (k ∷ ks) (c ∷ cs) ≡ fits ks cs
fits-cons k c [] cs e = rw e (ground arith)
fits-cons k c (l ∷ ks) cs e = rw e (
    long_enough-suc (any (λ x. eq x params) (l ∷ ks)) (length cs) (length (l ∷ ks))
      (λ _. omega arith))

if_some-map :
    (b : Bool) (c : Text) (ps : List Text)
    → (if b then some (c ∷ ps) else none) ≡ Option.map (λ qs. c ∷ qs) (if b then some ps else none)
if_some-map true c ps = refl
if_some-map false c ps = refl

if_and3 :
    (f e m : Bool) (ps : List Text)
    → (if f && (e && m) then some ps else none)
      ≡ (if e then (if f && m then some ps else none) else none)
if_and3 true true m ps = refl
if_and3 true false m ps = refl
if_and3 false true m ps = refl
if_and3 false false m ps = refl

indexes_from-cons :
    (k : Text) (ks : List Text)
    → indexes_from 0 (k ∷ ks)
      ≡ (if is_variable k then map suc (indexes_from 0 ks) else 0 ∷ map suc (indexes_from 0 ks))
unfolding indexes_from
indexes_from-cons k ks = rw (indexes_from-suc 0 ks)

bind_indexes-variable :
    (k c : Text) (ks cs : List Text)
    → eq k params ≡ false
    → is_variable k ≡ true
    → bind_indexes (k ∷ ks) (c ∷ cs) ≡ Option.map (λ ps. c ∷ ps) (bind_indexes ks cs)
unfolding bind_indexes
bind_indexes-variable k c ks cs e v =
    rw
      (
        fits-cons k c ks cs e,
        indexes_from-cons k ks,
        v,
        keywords_match-cons (indexes_from 0 ks) k c ks cs,
        remove_keywords-cons (indexes_from 0 ks) c cs,
      )
      (if_some-map (fits ks cs && keywords_match (indexes_from 0 ks) ks cs) c
        (remove_keywords (indexes_from 0 ks) cs))

keywords_match-zero :
    (idxs : List ℕ) (k c : Text) (ks cs : List Text)
    → keywords_match (0 ∷ map suc idxs) (k ∷ ks) (c ∷ cs) ≡ eq c k && keywords_match idxs ks cs
unfolding keywords_match
keywords_match-zero idxs k c ks cs = ap (λ b. eq c k && b) (keywords_match-cons idxs k c ks cs)

remove_keywords-zero :
    (idxs : List ℕ) (c : Text) (cs : List Text)
    → remove_keywords (0 ∷ map suc idxs) (c ∷ cs) ≡ remove_keywords idxs cs
unfolding remove_keywords remove_at
remove_keywords-zero idxs c cs = ap (λ xs. remove_at xs 0) (remove_keywords-cons idxs c cs)

bind_indexes-keyword :
    (k c : Text) (ks cs : List Text)
    → eq k params ≡ false
    → is_variable k ≡ false
    → bind_indexes (k ∷ ks) (c ∷ cs) ≡ (if eq c k then bind_indexes ks cs else none)
unfolding bind_indexes
bind_indexes-keyword k c ks cs e v =
    rw
      (
        fits-cons k c ks cs e,
        indexes_from-cons k ks,
        v,
        keywords_match-zero (indexes_from 0 ks) k c ks cs,
        remove_keywords-zero (indexes_from 0 ks) c cs,
      )
      (if_and3 (fits ks cs) (eq c k) (keywords_match (indexes_from 0 ks) ks cs)
        (remove_keywords (indexes_from 0 ks) cs))

-- Both variables begin with a colon, and what begins with one is a variable.
is_variable-param : (k : Text) → eq k param ≡ true → is_variable k ≡ true
unfolding starts_with
is_variable-param k h = rw ((eq_iff k param).0 h)

is_variable-params : (k : Text) → eq k params ≡ true → is_variable k ≡ true
unfolding starts_with
is_variable-params k h = rw ((eq_iff k params).0 h)

is_variable-eq-param :
    (k : Text) → component_valid k ≡ true → eq k params ≡ false → is_variable k ≡ eq k param
is_variable-eq-param k v e = ground (arith, is_variable-param k)

-- A component that is not `:params` is either `:param` or a keyword, for both searches.
bind_indexes-cons :
    (k c : Text) (ks cs : List Text)
    → component_valid k ≡ true
    → eq k params ≡ false
    → bind_indexes (k ∷ ks) (c ∷ cs) ≡ (
        if eq k param
        then Option.map (λ ps. c ∷ ps) (bind_indexes ks cs)
        else if eq c k
        then bind_indexes ks cs
        else none)
bind_indexes-cons k c ks cs v e = elim (Bool-cases (eq k param)) [
  | inl h ↦ rw h (bind_indexes-variable k c ks cs e (is_variable-param k h))
  | inr h ↦ rw h (bind_indexes-keyword k c ks cs e (is_variable-eq-param k v e ∙ h))
]

bind_indexes-params :
    (k : Text) (cs : List Text) → eq k params ≡ true → bind_indexes (k ∷ []) cs ≡ some cs
unfolding bind_indexes remove_keywords indexes_from keywords_match
bind_indexes-params k cs h = rw (h, indexes_from-cons k [], is_variable-params k h) (ground arith)

bind_indexes-short : (k l : Text) (ks : List Text) → bind_indexes (k ∷ l ∷ ks) [] ≡ none
unfolding bind_indexes
bind_indexes-short k l ks = elim (Bool-cases (any (λ x. eq x params) (k ∷ l ∷ ks))) [
  | inl h ↦ rw h (ground arith)
  | inr h ↦ rw h (ground arith)
]

bind_indexes-nil : (cs : List Text) → bind_indexes [] cs ≡ bind_pattern [] cs
unfolding bind_indexes bind_pattern remove_keywords indexes_from keywords_match
bind_indexes-nil [] = refl
bind_indexes-nil (c ∷ cs) = ground arith

bind_indexes-missing : (k : Text) → eq k params ≡ false → bind_indexes (k ∷ []) [] ≡ none
unfolding bind_indexes
bind_indexes-missing k e = rw e (ground arith)

-- The search by positions is the match component by component, on every pattern and request.
pub bind_indexes-bind_pattern :
    (pattern components : List Text)
    → IsPattern pattern
    → bind_indexes pattern components ≡ bind_pattern pattern components
unfolding bind_pattern
bind_indexes-bind_pattern [] [] w = bind_indexes-nil []
bind_indexes-bind_pattern [] (c ∷ cs) w = bind_indexes-nil (c ∷ cs)
bind_indexes-bind_pattern (k ∷ []) [] w = elim (Bool-cases (eq k params)) [
  | inl h ↦ rw h (bind_indexes-params k [] h)
  | inr h ↦ rw h (bind_indexes-missing k h)
]
bind_indexes-bind_pattern (k ∷ l ∷ ks) [] w = bind_indexes-short k l ks
bind_indexes-bind_pattern (k ∷ []) (c ∷ cs) w = elim (Bool-cases (eq k params)) [
  | inl h ↦ rw h (bind_indexes-params k (c ∷ cs) h)
  | inr h ↦ rw (h, bind_indexes-cons k c [] cs w h, bind_indexes-nil cs) refl
]
bind_indexes-bind_pattern (k ∷ l ∷ ks) (c ∷ cs) (v, e, w) =
    rw (e, bind_indexes-cons k c (l ∷ ks) cs v e, bind_indexes-bind_pattern (l ∷ ks) cs w)
