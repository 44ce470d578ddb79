-- ===== src/Tests/Clauses.antt =====
-- Runs of the code of src/tcriteria.cpp and src/tcriteriaconverter.h.
use tf.Base.{◌≡◌, refl, false, [], ◌∷◌, ◌++◌, All}
use tf.Base.Text.{Text, codes, is_empty}
use tf.Criteria.{
  Criteria, new, add, and_also, or_else, negated, concat, criteria_to_string, to_string,
}
use tf.Criteria.Joining.{add_all, clauses, to_string-add_all}

abbrev same : Text → Text
same s = s

abbrev a : Criteria Text
a = new (codes "a = 1")

abbrev b : Criteria Text
b = new (codes "b = 2")

to_string-tree :
    to_string same (and_also (or_else a b) (negated b)) ≡ codes "(a = 1 OR b = 2) AND (NOT b = 2)"
unfolding criteria_to_string and_also or_else add negated concat
to_string-tree = refl

-- The second comparison is lost.
negated-lost : to_string same (negated (and_also a b)) ≡ codes "(NOT a = 1)"
unfolding criteria_to_string and_also add negated concat
negated-lost = refl

texts_not_empty : All (λ x. is_empty (to_string same x) ≡ false) (a ∷ b ∷ [])
unfolding criteria_to_string concat
texts_not_empty = (refl, (refl, tt))

to_string-add_all_example :
    to_string same (add_all same b (a ∷ b ∷ [])) ≡ to_string same b ++ clauses same (a ∷ b ∷ [])
to_string-add_all_example = to_string-add_all same b (a ∷ b ∷ []) refl texts_not_empty
