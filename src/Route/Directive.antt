-- ===== src/Route/Directive.antt =====
-- src/turlroute.h: the classes TRoute and TRouting; src/turlroute.cpp: the table of directives.
use tf.Base.{ℕ, Bool, false, List, [], ◌∷◌, if◌then◌else◌}
use tf.Base.Text.{Text, codes, eq}

-- The directives are the numbers of the HTTP methods, 0 for any of them and 0xff for an error.
abbrev pub match : ℕ
match = 0

abbrev pub invalid : ℕ
invalid = 0xff

pub record Route : Type 0 where
  pub method : ℕ
  pub component_list : List Text
  pub keyword_indexes : List ℕ
  pub controller : Text
  pub action : Text
  pub param_num : ℕ
  pub has_variable_params : Bool

pub record Routing : Type 0 where
  pub exists : Bool
  pub controller : Text
  pub action : Text
  pub params : List Text

-- TRouting()
abbrev pub not_found : Routing
not_found = record { exists = false; controller = []; action = []; params = [] }

-- class RouteDirectiveHash
abbrev pub directive_hash : List (Text × ℕ)
directive_hash =
    (codes "match", 0)
    ∷ (codes "get", 1)
    ∷ (codes "post", 3)
    ∷ (codes "put", 5)
    ∷ (codes "patch", 9)
    ∷ (codes "delete", 6)
    ∷ (codes "trace", 7)
    ∷ (codes "connect", 8)
    ∷ []

-- directiveHash()->value(key, TRoute::Invalid)
unfoldable pub value : Text → List (Text × ℕ) → ℕ
value key [] = invalid
value key ((k, v) ∷ rest) = if eq k key then v else value key rest
