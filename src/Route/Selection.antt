-- ===== src/Route/Selection.antt =====
-- Which route findRouting() of src/turlroute.cpp selects, and with which parameters.
use tf.Base.{
  ℕ, ◌≡◌, ◌≢◌, refl, ap, Bool, true, false, not, ◌&&◌, List, [], ◌∷◌, ◌++◌, none, some, length, all,
  any, ◌==◌, if◌then◌else◌, arith, Bool-cases, inl, inr, All,
}
use tf.Base.Text.{Text, eq, eq_iff, is_empty, split, ends_with, contains}
use tf.Base.Unicode.{Unicode}
use tf.Route.Directive.{Route, Routing, not_found, invalid}
use tf.Route.Parse.{params, indexes_from, component_valid, parse_items, split_path, trimmed_quotes}
use tf.Route.Find.{
  component, length_matches, keywords_match, action_params, method_matches, route_matches,
  find_routing, routing_of, find_url, serves,
}
use tf.Route.Matching.{IsPattern, bind_pattern, bind_indexes, bind_indexes-bind_pattern}

-- What a route made from a line of the file satisfies, with `:params` at the end of its path only.
pub record IsRoute (rt : Route) : Type 0 where
  pub pattern : IsPattern rt.component_list
  pub indexes : rt.keyword_indexes ≡ indexes_from 0 rt.component_list
  pub variable : rt.has_variable_params ≡ any (λ c. eq c params) rt.component_list

and-true : (b : Bool) → b && true ≡ b
and-true true = refl
and-true false = refl

-- The test of findRouting() and the parameters that it takes out of a request are the match of the
-- path of the route, component by component: a keyword matches itself, `:param` one component and
-- `:params` all that are left. The method is left aside, and so is the request for "/".
pub bind_route :
    (rt : Route) (method : ℕ) (components : List Text)
    → IsRoute rt
    → method_matches rt method ≡ true
    → (length components == 1 && is_empty (component components 0)) ≡ false
    → (if route_matches rt method components then some (action_params rt components) else none)
      ≡ bind_pattern rt.component_list components
unfolding route_matches action_params length_matches bind_indexes
bind_route rt method components r m path =
    rw
      (
        m,
        path,
        r.variable,
        r.indexes,
        and-true (keywords_match (indexes_from 0 rt.component_list) rt.component_list components),
      )
      (bind_indexes-bind_pattern rt.component_list components r.pattern)

-- The routes of a list that do not match a request, up to one that does or to the end.
pub data Selection (method : ℕ) (components : List Text) (routes : List Route) (r : Routing)
    : Type 0 where
  nothing :
      All (λ rt. route_matches rt method components ≡ false) routes
      → r ≡ not_found
      → Selection method components routes r
  first :
      (before : List Route) (rt : Route) (after : List Route)
      → routes ≡ before ++ rt ∷ after
      → All (λ x. route_matches x method components ≡ false) before
      → route_matches rt method components ≡ true
      → r ≡ routing_of rt components
      → Selection method components routes r

Selection-cons :
    (method : ℕ) (components : List Text) (rt : Route) (routes : List Route) (r : Routing)
    → route_matches rt method components ≡ false
    → Selection method components routes r
    → Selection method components (rt ∷ routes) r
Selection-cons method components rt routes r miss (nothing h e) = nothing (miss, h) e
Selection-cons method components rt routes r miss (first before x after split h hit e) =
    first (rt ∷ before) x after (ap (λ rs. rt ∷ rs) split) (miss, h) hit e

-- findRouting() answers with the first route of the file that matches the request, and with no
-- route exactly if none matches.
pub find_routing-Selection :
    (routes : List Route) (method : ℕ) (components : List Text)
    → Selection method components routes (find_routing routes method components)
unfolding find_routing
find_routing-Selection [] method components = nothing tt refl
find_routing-Selection (rt ∷ routes) method components =
    elim (Bool-cases (route_matches rt method components)) [
      | inl hit ↦ rw hit (first [] rt routes refl tt hit refl)
      | inr miss ↦ rw miss (
          Selection-cons method components rt routes _ miss
            (find_routing-Selection routes method components))
    ]

eq-false :
    (capital : ℕ → Bool) (s t : Text)
    → any capital s ≡ true
    → any capital t ≡ false
    → eq s t ≡ false
eq-false capital s t hs ht = elim (Bool-cases (eq s t)) [
  | inl h ↦ let same = ap (λ x. any capital x) ((eq_iff s t).0 h) in absurd (cc)
  | inr h ↦ h
]

and-false : (a b : Bool) → (a && false) && b ≡ false
and-false true b = refl
and-false false b = refl

serves-mixed_case :
    (u : Unicode) (capital : ℕ → Bool) (rt : Route) (controller action : Text) (ps : List Text)
    → ((t : Text) → any capital (u.to_latin1 (u.to_lower t)) ≡ false)
    → any capital rt.action ≡ true
    → serves u rt controller action ps ≡ false
unfolding serves
serves-mixed_case u capital rt controller action ps lower m =
    rw (eq-false capital rt.action (u.to_latin1 (u.to_lower action)) m (lower action))
      (and-false _ _)

-- findUrl() writes the name of the action in lower case before it compares it, and a route keeps
-- the name as it stands in the file. So an action whose name has a letter of which no lower-case
-- text has any is never found: the result is the empty path for every list of such routes.
pub find_url-mixed_case :
    (u : Unicode) (capital : ℕ → Bool) (routes : List Route) (controller action : Text)
    (ps : List Text)
    → ((t : Text) → any capital (u.to_latin1 (u.to_lower t)) ≡ false)
    → All (λ rt. any capital rt.action ≡ true) routes
    → find_url u routes controller action ps ≡ []
unfolding find_url
find_url-mixed_case u capital [] controller action ps lower mixed = refl
find_url-mixed_case u capital (rt ∷ routes) controller action ps lower (m, mixed) =
    rw (serves-mixed_case u capital rt controller action ps lower m)
      (find_url-mixed_case u capital routes controller action ps lower mixed)

-- A line of three items that is taken for a route gives one whose keyword positions, number of
-- variables and kind of match are those of its path, whose directive is known, and whose
-- components with a colon are `:param` and `:params`; `:params` in the path stands at its end.
pub parse_items-some :
    (u : Unicode) (d p t : Text) (rt : Route)
    → parse_items u (d ∷ p ∷ t ∷ []) ≡ some rt
    → (rt.component_list ≡ split_path (trimmed_quotes u p))
      × (rt.keyword_indexes ≡ indexes_from 0 rt.component_list)
      × (rt.has_variable_params ≡ any (λ c. eq c params) rt.component_list)
      × (rt.method ≢ invalid)
      × (all component_valid rt.component_list ≡ true)
      × (contains (trimmed_quotes u p) params && not (ends_with (trimmed_quotes u p) params)
          ≡ false)
unfolding parse_items
parse_items-some u d p t rt e =
    (ground arith, ground arith, ground arith, ground arith, ground arith, ground arith)
