-- ===== src/Tests/Fields.antt =====
-- Runs of the code of src/tinternetmessageheader.cpp, with keys compared by their ASCII letters.
use tf.Base.{◌≡◌, refl, sym, ◌∙◌, Bool, [], ◌∷◌, some, if◌then◌else◌, ◌==◌}
use tf.Base.Text.{Text, codes, eq, eq_refl, eq_iff}
use tf.Header.{Header, raw_header, set_raw_header}
use tf.Header.Lookup.{IsSameKey, count_of, raw_header-set_raw_header}
use tf.Tests.Routes.{lower}

abbrev same : Text → Text → Bool
same a b = eq (lower a) (lower b)

same-IsSameKey : IsSameKey same
same-IsSameKey = record {
  same-refl = λ a. eq_refl (lower a);
  same-sym = λ a b h. (eq_iff (lower b) (lower a)).1 (sym ((eq_iff (lower a) (lower b)).0 h));
  same-trans = λ a b c h k.
      (eq_iff (lower a) (lower c)).1
        ((eq_iff (lower a) (lower b)).0 h ∙ (eq_iff (lower b) (lower c)).0 k);
}

abbrev trim_left : Text → Text
trim_left [] = []
trim_left (c ∷ s) = if c == b' ' then trim_left s else c ∷ s

abbrev header : Header
header =
    (codes "Host", some (codes "a"))
    ∷ (codes "Date", some (codes "b"))
    ∷ (codes "HOST", some (codes "c"))
    ∷ []

raw_header-set_raw_header_example :
    raw_header same (codes "Date") (set_raw_header same (codes "host") (some (codes "d")) header)
    ≡ (if same (codes "host") (codes "Date")
        then some (codes "d")
        else raw_header same (codes "Date") header)
raw_header-set_raw_header_example =
    raw_header-set_raw_header same same-IsSameKey (codes "host") (codes "Date") (codes "d") header
      (refl, (refl, (refl, tt)))

no_server : count_of same (codes "Server") header ≡ 0
unfolding eq
no_server = refl
