-- ===== src/Tests/Routes.antt =====
-- Runs of the code of src/turlroute.cpp, with the methods of QString on ASCII texts without spaces.
use tf.Base.{
  ℕ, ◌+◌, ◌≡◌, refl, Bool, true, false, ◌&&◌, List, [], ◌∷◌, none, some, any, leb, if◌then◌else◌,
  arith,
}
use tf.Base.Text.{Text, codes, eq, starts_with, contains, ends_with, split}
use tf.Base.Unicode.{Unicode}
use tf.Route.Directive.{value, Route}
use tf.Route.Parse.{
  split_target, target, count_param, indexes_from, parse_items, split_path, trimmed_quotes,
}
use tf.Route.Find.{action_params, method_matches, route_matches, find_routing}
use tf.Route.Matching.{bind_pattern}
use tf.Route.Selection.{IsRoute, bind_route, Selection, find_routing-Selection}

abbrev pub capital : ℕ → Bool
capital c = leb b'A' c && leb c b'Z'

abbrev pub lower : Text → Text
lower [] = []
lower (c ∷ s) = (if capital c then c + 32 else c) ∷ lower s

abbrev same : Text → Text
same s = s

abbrev ascii : Unicode
ascii = record {
  to_lower = lower;
  to_latin1 = same;
  to_utf8 = same;
  trimmed = same;
  simplified = same;
}

lower-no_capital : (s : Text) → any capital (lower s) ≡ false
lower-no_capital [] = refl
lower-no_capital (c ∷ s) = ground (arith, lower-no_capital s)

-- get /blog/:param/:params Blog#showEntry
abbrev blog : Route
blog = record {
  method = 1;
  component_list = codes "blog" ∷ codes ":param" ∷ codes ":params" ∷ [];
  keyword_indexes = 0 ∷ [];
  controller = codes "blogcontroller";
  action = codes "showEntry";
  param_num = 1;
  has_variable_params = true;
}

blog-IsRoute : IsRoute blog
unfolding eq starts_with indexes_from
blog-IsRoute = record {
  pattern = (refl, refl, (refl, refl, refl));
  indexes = refl;
  variable = refl;
}

abbrev request : List Text
request = codes "blog" ∷ codes "7" ∷ codes "a" ∷ codes "b" ∷ []

blog-method : method_matches blog 1 ≡ true
unfolding method_matches
blog-method = refl

bind_route_example :
    (if route_matches blog 1 request then some (action_params blog request) else none)
    ≡ bind_pattern blog.component_list request
bind_route_example = bind_route blog 1 request blog-IsRoute blog-method refl

-- The keyword is gone and the three parameters are left.
request_params :
    bind_pattern blog.component_list request ≡ some (codes "7" ∷ codes "a" ∷ codes "b" ∷ [])
unfolding bind_pattern eq starts_with
request_params = refl

find_routing-Selection_example :
    Selection 1 request (blog ∷ []) (find_routing (blog ∷ []) 1 request)
find_routing-Selection_example = find_routing-Selection (blog ∷ []) 1 request

-- The three items of the line of that route.
abbrev items : List Text
items = codes "GET" ∷ codes "/blog/:param/:params" ∷ codes "Blog#showEntry" ∷ []

parse_items-blog : parse_items ascii items ≡ some blog
unfolding parse_items trimmed_quotes split_path eq starts_with ends_with contains split split_target
    indexes_from count_param value target
parse_items-blog = refl
