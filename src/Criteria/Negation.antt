-- ===== src/Criteria/Negation.antt =====
-- The negation of criteria in src/tcriteria.cpp.
use tf.Base.{◌≡◌, refl, false}
use tf.Base.Text.{Text}
use tf.Criteria.{
  LogicalOperator, nothing, Criteria, is_null, add, negated, concat, criteria_to_string, to_string,
}

-- The negation of a criteria to which another one has been added is the same SQL as that of the
-- first one alone, and the negation of a negation is the same as the negation.
pub to_string-negated :
    {D : Type 0} (f : D → Text) (op : LogicalOperator) (c x : Criteria D)
    → is_null c.cri1 ≡ false
    → c.logi_op ≡ nothing
    → (to_string f (negated (add op c x)) ≡ to_string f (negated c))
      × (to_string f (negated (negated c)) ≡ to_string f (negated c))
unfolding negated add criteria_to_string concat
to_string-negated f op c x h e = rw (h, e) (rw h, refl)
