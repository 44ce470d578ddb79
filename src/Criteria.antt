-- ===== src/Criteria.antt =====
-- src/tcriteria.h, src/tcriteria.cpp and src/tcriteriaconverter.h: the tree of a WHERE clause and the
-- text of SQL that it becomes. A comparison of a property, a TCriteriaData, is of any type, and its
-- text is a parameter; a QVariant is a null value, such a comparison or a criteria.
pub mod Negation
pub mod Joining
use tf.Base.{Bool, true, false, List, [], ◌∷◌, ◌++◌, if◌then◌else◌}
use tf.Base.Text.{Text, codes, is_empty}

pub data LogicalOperator : Type 0 where
  nothing : LogicalOperator
  conj : LogicalOperator
  disj : LogicalOperator
  negation : LogicalOperator

pub data Variant (D : Type 0) : Type 0 where
  null : Variant D
  comparison : D → Variant D
  criteria : Variant D → LogicalOperator → Variant D → Variant D

pub record Criteria (D : Type 0) : Type 0 where
  pub cri1 : Variant D
  pub logi_op : LogicalOperator
  pub cri2 : Variant D

module _ {D : Type 0} where
  abbrev pub is_null : Variant D → Bool
  is_null null = true
  is_null (comparison d) = false
  is_null (criteria c1 op c2) = false

  abbrev pub from_value : Criteria D → Variant D
  from_value c = criteria c.cri1 c.logi_op c.cri2

  abbrev pub empty : Criteria D
  empty = record { cri1 = null; logi_op = nothing; cri2 = null }

  -- The constructors with a comparison
  abbrev pub new : D → Criteria D
  new d = record { cri1 = comparison d; logi_op = nothing; cri2 = null }

  abbrev pub first_of : LogicalOperator → Criteria D → Variant D
  first_of nothing c = c.cri1
  first_of conj c = from_value c
  first_of disj c = from_value c
  first_of negation c = from_value c

  -- add(op, criteria)
  unfoldable pub add : LogicalOperator → Criteria D → Criteria D → Criteria D
  add op c x =
      if is_null c.cri1
      then record { cri1 = from_value x; logi_op = nothing; cri2 = null }
      else record { cri1 = first_of c.logi_op c; logi_op = op; cri2 = from_value x }

  -- operator&&, operator||, and operator!
  unfoldable pub and_also : Criteria D → Criteria D → Criteria D
  unfolding add
  and_also c x = add conj c x

  unfoldable pub or_else : Criteria D → Criteria D → Criteria D
  unfolding add
  or_else c x = add disj c x

  unfoldable pub negated : Criteria D → Criteria D
  negated c = record c { logi_op = negation }

-- concat(s1, op, s2)
unfoldable pub concat : Text → LogicalOperator → Text → Text
concat s1 nothing s2 = s1
concat s1 conj s2 = if is_empty s2 then s1 else s1 ++ codes " AND " ++ s2
concat s1 disj s2 = if is_empty s2 then s1 else codes "(" ++ s1 ++ codes " OR " ++ s2 ++ codes ")"
concat s1 negation s2 = codes "(NOT " ++ s1 ++ codes ")"

module _ {D : Type 0} (comparison_to_string : D → Text) where
  unfoldable pub criteria_to_string : Variant D → Text
  criteria_to_string null = []
  criteria_to_string (comparison d) = comparison_to_string d
  criteria_to_string (criteria c1 op c2) =
      let joined = concat (criteria_to_string c1) op (criteria_to_string c2) in
      if is_null c1 then [] else joined

  abbrev pub to_string : Criteria D → Text
  to_string c = criteria_to_string (from_value c)
