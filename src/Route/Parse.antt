-- ===== src/Route/Parse.antt =====
-- src/turlroute.cpp: splitPath(), addRouteFromString() and parseConfigFile();
-- src/thttputility.h: trimmedQuotes().
use tf.Base.{
  ℕ, suc, ◌+◌, ◌-◌, Bool, true, false, not, ◌&&◌, ◌||◌, List, [], ◌∷◌, ◌++◌, Option, none, some,
  length, all, any, ltb, ◌==◌, if◌then◌else◌,
}
use tf.Base.Text.{Text, codes, eq, starts_with, ends_with, contains, mid, split, is_empty, on_head}
use tf.Base.Unicode.{Unicode}
use tf.Route.Directive.{Route, value, directive_hash, invalid}

abbrev pub slash : Text
slash = b'/' ∷ []

-- The path without a leading slash and, if it is longer than a slash, without a trailing one, cut
-- at the slashes.
unfoldable pub split_path : Text → List Text
split_path path =
    let s = if starts_with path slash then 1 else 0 in
    let len = length path in
    let end = if ltb 1 len && ends_with path slash then len - 1 else len in
    split b'/' (mid path s (end - s))

abbrev pub param : Text
param = codes ":param"

abbrev pub params : Text
params = codes ":params"

-- componentList.count(":param")
unfoldable pub count_param : List Text → ℕ
count_param [] = 0
count_param (c ∷ cs) = if eq c param then suc (count_param cs) else count_param cs

abbrev pub is_variable : Text → Bool
is_variable c = starts_with c (codes ":")

-- A component that begins with a colon is one of the two variables.
abbrev pub component_valid : Text → Bool
component_valid c = if is_variable c then eq c param || eq c params else true

-- The positions of the components that are no variables, counted from i.
unfoldable pub indexes_from : ℕ → List Text → List ℕ
indexes_from i [] = []
indexes_from i (c ∷ cs) =
    if is_variable c then indexes_from (i + 1) cs else i ∷ indexes_from (i + 1) cs

-- split(QRegExp("[#\\.]"))
unfoldable pub split_target : Text → List Text
split_target [] = [] ∷ []
split_target (c ∷ s) =
    if c == b'#' || c == b'.' then [] ∷ split_target s else on_head c (split_target s)

module _ (u : Unicode) where
  open u use {to_lower, to_latin1, to_utf8, trimmed, simplified}

  -- Quotes of one kind around a trimmed text are taken off.
  unfoldable pub trimmed_quotes : Text → Text
  trimmed_quotes string =
      let s = trimmed string in
      let dquot = codes "\"" in
      let squot = codes "'" in
      if ltb 1 (length s)
        && ((starts_with s dquot && ends_with s dquot)
            || (starts_with s squot && ends_with s squot))
      then mid s 1 (length s - 2)
      else s

  -- `Controller#action`, or a static file by its path.
  target_names : List Text → Option (Text × Text)
  target_names (c ∷ a ∷ []) = some (to_latin1 (to_lower c) ++ codes "controller", to_latin1 a)
  target_names _ = none

  unfoldable pub target : Text → Option (Text × Text)
  unfolding target_names
  target t = if starts_with t slash then some (to_utf8 t, []) else target_names (split_target t)

  route_of : ℕ → List Text → Option (Text × Text) → Option Route
  route_of method components none = none
  route_of method components (some (controller, action)) = some (record {
    method = method;
    component_list = components;
    keyword_indexes = indexes_from 0 components;
    controller = controller;
    action = action;
    param_num = count_param components;
    has_variable_params = any (λ c. eq c params) components;
  })

  -- The route of a line of three items, or nothing where the source returns false.
  unfoldable pub parse_items : List Text → Option Route
  unfolding route_of
  parse_items (directive ∷ path_item ∷ target_item ∷ []) =
      let path = trimmed_quotes path_item in
      let method = value (to_lower directive) directive_hash in
      let components = split_path path in
      if contains path params && not (ends_with path params)
      then none
      else if method == invalid
      then none
      else if all component_valid components
      then route_of method components (target (trimmed_quotes target_item))
      else none
  parse_items _ = none

  add_route : List Route → Option Route → Bool × List Route
  add_route routes none = (false, routes)
  add_route routes (some rt) = (true, routes ++ rt ∷ [])

  -- addRouteFromString(line)
  unfoldable pub add_route_from_string : Text → List Route → Bool × List Route
  unfolding add_route
  add_route_from_string line routes = add_route routes (parse_items (split b' ' (simplified line)))

  -- The loop of parseConfigFile() over the lines of the file: comments and empty lines are skipped,
  -- and a line that is no route is only reported.
  unfoldable pub parse_lines : List Text → List Route → List Route
  parse_lines [] routes = routes
  parse_lines (l ∷ ls) routes =
      let line = simplified l in
      parse_lines ls (
        if not (is_empty line) && not (starts_with line (codes "#"))
        then (add_route_from_string line routes).1
        else routes)
