-- ===== src/Route/Find.antt =====
-- src/turlroute.cpp: findRouting(), which selects the route of a request, and findUrl() with
-- generatePath(), which give the path of an action.
use tf.Base.{
  ℕ, zero, suc, ◌+◌, ◌-◌, Bool, true, not, ◌&&◌, ◌||◌, List, [], ◌∷◌, ◌++◌, length, all, get_or,
  take, drop, leb, ltb, ◌==◌, if◌then◌else◌,
}
use tf.Base.Text.{Text, codes, eq, is_empty, join}
use tf.Base.Unicode.{Unicode}
use tf.Route.Directive.{Route, Routing, not_found, match}
use tf.Route.Parse.{param, params, slash}

-- components.value(idx): empty where there is no such component.
abbrev pub component : List Text → ℕ → Text
component cs idx = get_or cs idx []

unfoldable pub length_matches : Route → List Text → Bool
length_matches rt components =
    if rt.has_variable_params
    then not (ltb (length components) (length rt.component_list - 1))
    else length components == length rt.component_list

unfoldable pub keywords_match : List ℕ → List Text → List Text → Bool
keywords_match idxs pattern components =
    all (λ idx. eq (component components idx) (component pattern idx)) idxs

unfoldable pub remove_at : List Text → ℕ → List Text
remove_at [] i = []
remove_at (c ∷ cs) zero = cs
remove_at (c ∷ cs) (suc i) = c ∷ remove_at cs i

-- The iterator goes through the positions from the back.
unfoldable pub remove_keywords : List ℕ → List Text → List Text
remove_keywords [] cs = cs
remove_keywords (idx ∷ idxs) cs = remove_at (remove_keywords idxs cs) idx

-- The path "/" has one component, which is empty.
unfoldable pub action_params : Route → List Text → List Text
action_params rt components =
    if length components == 1 && is_empty (component components 0)
    then []
    else remove_keywords rt.keyword_indexes components

unfoldable pub method_matches : Route → ℕ → Bool
method_matches rt method = rt.method == match || rt.method == method

unfoldable pub route_matches : Route → ℕ → List Text → Bool
route_matches rt method components =
    length_matches rt components
    && (keywords_match rt.keyword_indexes rt.component_list components && method_matches rt method)

unfoldable pub routing_of : Route → List Text → Routing
routing_of rt components = record {
  exists = true;
  controller = rt.controller;
  action = rt.action;
  params = action_params rt components;
}

-- findRouting(method, components)
unfoldable pub find_routing : List Route → ℕ → List Text → Routing
find_routing [] method components = not_found
find_routing (rt ∷ routes) method components =
    if route_matches rt method components
    then routing_of rt components
    else find_routing routes method components

-- The loop of generatePath() from the cnt-th parameter on.
unfoldable pub generate_components : ℕ → List Text → List Text → Text
generate_components cnt [] ps = []
generate_components cnt (c ∷ cs) ps =
    if eq c param
    then component ps cnt ++ (slash ++ generate_components (cnt + 1) cs ps)
    else if eq c params
    then join slash (drop cnt ps) ++ slash
    else c ++ (slash ++ generate_components cnt cs ps)

-- chop(1)
abbrev pub chop : Text → Text
chop s = take (length s - 1) s

unfoldable pub generate_path : List Text → List Text → Text
generate_path components ps =
    let ret = slash ++ generate_components 0 components ps in
    if ltb 1 (length ret) then chop ret else ret

module _ (u : Unicode) where
  open u use {to_lower, to_latin1}

  unfoldable pub serves : Route → Text → Text → List Text → Bool
  serves rt controller action ps =
      (eq rt.controller (to_latin1 (to_lower controller) ++ codes "controller")
        && eq rt.action (to_latin1 (to_lower action)))
      && ((rt.param_num == length ps && not rt.has_variable_params)
          || (leb rt.param_num (length ps) && rt.has_variable_params))

  -- findUrl(controller, action, params); the empty text where no route serves the action.
  unfoldable pub find_url : List Route → Text → Text → List Text → Text
  find_url [] controller action ps = []
  find_url (rt ∷ routes) controller action ps =
      if serves rt controller action ps
      then generate_path rt.component_list ps
      else find_url routes controller action ps
