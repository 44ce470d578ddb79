-- ===== src/Criteria/Joining.antt =====
-- The text of criteria that are joined, for src/tcriteria.cpp and src/tcriteriaconverter.h.
use tf.Base.{
  ◌≡◌, refl, sym, ap, ◌∙◌, false, List, [], ◌∷◌, ◌++◌, if◌then◌else◌, inl, inr, Bool-cases, All,
  append_assoc, append-nil,
}
use tf.Base.Text.{Text, codes, is_empty}
use tf.Criteria.{
  LogicalOperator, nothing, conj, disj, negation, Variant, null, criteria, Criteria, is_null,
  from_value, first_of, add, and_also, concat, criteria_to_string, to_string,
}

module _ {D : Type 0} (f : D → Text) where
  first_of-text :
      (op : LogicalOperator) (c : Criteria D)
      → op ≡ c.logi_op
      → is_null c.cri1 ≡ false
      → criteria_to_string f (first_of op c) ≡ to_string f c
  unfolding criteria_to_string concat
  first_of-text nothing c e h = rw (h, ← e)
  first_of-text conj c e h = refl
  first_of-text disj c e h = refl
  first_of-text negation c e h = refl

  first_of-is_null :
      (op : LogicalOperator) (c : Criteria D)
      → is_null c.cri1 ≡ false
      → is_null (first_of op c) ≡ false
  first_of-is_null nothing c h = h
  first_of-is_null conj c h = refl
  first_of-is_null disj c h = refl
  first_of-is_null negation c h = refl

  text_of_criteria :
      (op : LogicalOperator) (v w : Variant D)
      → is_null v ≡ false
      → criteria_to_string f (criteria v op w)
        ≡ concat (criteria_to_string f v) op (criteria_to_string f w)
  unfolding criteria_to_string
  text_of_criteria op v w h = rw h

  wrapped :
      (x : Criteria D)
      → to_string f (record { cri1 = from_value x; logi_op = nothing; cri2 = null }) ≡ to_string f x
  unfolding criteria_to_string concat
  wrapped x = refl

  -- The text of a criteria to which another one is added is that of the other one where the first
  -- is empty, and otherwise the two texts, joined by the operator, whatever the tree of the first.
  pub to_string-add :
      (op : LogicalOperator) (c x : Criteria D)
      → to_string f (add op c x)
        ≡ (if is_null c.cri1 then to_string f x else concat (to_string f c) op (to_string f x))
  unfolding add
  to_string-add op c x = elim (Bool-cases (is_null c.cri1)) [
    | inl e ↦ rw e (wrapped x)
    | inr e ↦ rw e (
        text_of_criteria op (first_of c.logi_op c) (from_value x) (first_of-is_null c.logi_op c e)
        ∙ ap (λ s. concat s op (to_string f x)) (first_of-text c.logi_op c refl e))
  ]

  -- Criteria that are added one after the other.
  abbrev pub add_all : Criteria D → List (Criteria D) → Criteria D
  add_all c [] = c
  add_all c (x ∷ xs) = add_all (and_also c x) xs

  abbrev pub clauses : List (Criteria D) → Text
  clauses [] = []
  clauses (x ∷ xs) = codes " AND " ++ (to_string f x ++ clauses xs)

  and_also-is_null :
      (c x : Criteria D) → is_null c.cri1 ≡ false → is_null (and_also c x).cri1 ≡ false
  unfolding and_also add
  and_also-is_null c x h = rw h (first_of-is_null c.logi_op c h)

  concat-conj : (s t : Text) → is_empty t ≡ false → concat s conj t ≡ s ++ codes " AND " ++ t
  unfolding concat
  concat-conj s t h = rw h

  to_string-and_also :
      (c x : Criteria D)
      → is_null c.cri1 ≡ false
      → is_empty (to_string f x) ≡ false
      → to_string f (and_also c x) ≡ to_string f c ++ codes " AND " ++ to_string f x
  unfolding and_also
  to_string-and_also c x h k =
      to_string-add conj c x ∙ rw h (concat-conj (to_string f c) (to_string f x) k)

  -- Criteria that are added with AND to one that is not empty, and whose texts are not empty, are
  -- the text of the first one and theirs, in their order, each behind an AND.
  pub to_string-add_all :
      (c : Criteria D) (xs : List (Criteria D))
      → is_null c.cri1 ≡ false
      → All (λ x. is_empty (to_string f x) ≡ false) xs
      → to_string f (add_all c xs) ≡ to_string f c ++ clauses xs
  to_string-add_all c [] h hs = sym (append-nil (to_string f c))
  to_string-add_all c (x ∷ xs) h (k, hs) =
      to_string-add_all (and_also c x) xs (and_also-is_null c x h) hs
      ∙ ap (λ s. s ++ clauses xs) (to_string-and_also c x h k)
      ∙ append_assoc (to_string f c ++ codes " AND ") (to_string f x) (clauses xs)
      ∙ append_assoc (to_string f c) (codes " AND ") (to_string f x ++ clauses xs)
