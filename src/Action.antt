-- ===== src/Action.antt =====
-- src/tactioncontext.cpp: execute(), which answers a request: the route, the controller or a file of the
-- public directory, the exceptions and the access log. The lines of the log are its status codes.
pub mod Exceptions
pub mod Controller
pub mod Response
pub mod Steps
pub mod Answering
pub mod Forgery
pub mod Unfinished
pub mod Continuing
use tf.Base.{
  ℕ, ◌/◌, Bool, true, false, not, ◌&&◌, List, [], ◌∷◌, ◌++◌, Option, none, some, if◌then◌else◌,
  ◌==◌, ◌%◌, ◌^◌, ltb, drop, get_or, length,
}
use tf.Base.Text.{Text, codes, eq, is_empty, starts_with, split_at}
use tf.Route.Directive.{Route, Routing}
use tf.Route.Parse.{split_path, slash}
use tf.Route.Find.{find_routing, component}
use tf.Action.Exceptions.{
  Effect, Result, ok, client_error, failure, Done, throw, modify, when, ◌>>=◌, ◌>>◌,
}
use tf.Action.Response as Response
use tf.Action.Response.{Output, Head, response, closed}
use tf.Action.Steps.{Request, State, Handlers, Surroundings, put, run_controller}

-- A file of the public directory: when it was modified, in milliseconds, its suffix and its bytes.
pub record File : Type 0 where
  pub last_modified : ℕ
  pub suffix : Text
  pub bytes : Text

-- The routes, the controllers by their names, the readable files by their canonical paths, and the
-- functions of Qt on URLs, dates and texts.
pub record Site (V S : Type 0) : Type 0 where
  pub routes : List Route
  pub controllers : Text → Option (Handlers V S)
  pub files : Text → Option File
  pub percent_decoded : Text → Text
  pub from_utf8 : Text → Text
  pub to_latin1 : Text → Text
  pub canonical_path : Text → Text
  pub media_type : Text → Text
  pub to_encoded : Text → Text
  pub to_http_date : ℕ → Text
  pub from_http_date : Text → Option ℕ

abbrev with_spaces : Text → Text
with_spaces [] = []
with_spaces (c ∷ s) = (if c == b'+' then codes "%20" else c ∷ []) ++ with_spaces s

-- TRouting::setRouting()
abbrev pub set_routing : Text → Text → List Text → Routing → Routing
set_routing controller action params route = record route {
  controller = controller;
  action = action;
  params = params;
}

-- TActionController::disabledControllers()
abbrev pub is_disabled : Text → Bool
is_disabled c = eq c (codes "application")

abbrev found : ℕ
found = 302

module _ {V S : Type 0} (e : Surroundings V S) (site : Site V S) where
  open site use {
    routes, controllers, files, percent_decoded, from_utf8, to_latin1, canonical_path, media_type,
    to_encoded, to_http_date, from_http_date,
  }

  -- THttpUtility::fromUrlEncoding()
  unfoldable pub from_url_encoding : Text → Text
  from_url_encoding enc = from_utf8 (percent_decoded (with_spaces enc))

  -- The path before a question mark.
  abbrev pub path_of : Request → Text
  path_of req = from_url_encoding (split_at b'?' req.path).0

  -- "Default URL routing"
  unfoldable pub default_routing : List Text → Routing → Routing
  default_routing components route =
      if e.settings.direct_view_render_mode
      then set_routing (codes "directcontroller") (codes "show") components route
      else let c = e.to_lower (to_latin1 (component components 0)) in
        let action = to_latin1 (get_or components 1 (codes "index")) in
        (if not (is_empty c) && not (is_disabled c)
          then set_routing (c ++ codes "controller") action (drop 2 components) route
          else route)

  unfoldable pub route_of : Request → Routing
  route_of req =
      let components = split_path (path_of req) in
      let route = find_routing routes req.method components in
      if route.exists then route else default_routing components route

  -- "Check If-Modified-Since header for caching"
  unfoldable pub is_modified : Request → File → Bool
  is_modified req f =
      if is_empty req.if_modified_since then true else elim (from_http_date req.if_modified_since) [
        | none ↦ true
        | some dt ↦ not (dt / 1000 == f.last_modified / 1000)
      ]

  abbrev file_head : File → Head
  file_head f = record Response.new { last_modified = to_http_date f.last_modified }

  unfoldable pub file_output : Request → File → Output
  file_output req f =
      if is_modified req f
      then Response.write_typed e.site 200 (file_head f) (media_type f.suffix) (some f.bytes)
          (length f.bytes)
      else Response.write_status e.site Response.not_modified Response.new

  -- A file, a page that it is not there, or a redirection of the table of routes.
  unfoldable pub public_output : Request → Routing → Text → Output
  public_output req route path = elim (files (canonical_path path)) [
    | some f ↦ file_output req f
    | none ↦
        if route.exists
        then Response.write_status e.site found
            (record Response.new { location = to_encoded path; content_type = codes "text/html" })
        else Response.write_status e.site 404 Response.new
  ]

  abbrev pub status_of : Output → ℕ
  status_of (response h body) = h.status_code
  status_of closed = 500

  abbrev pub get_output : Request → Routing → Output
  get_output req route =
      public_output req route
        (if starts_with route.controller slash then route.controller else path_of req)

  -- The part of execute() where there is no such controller: only GET is answered.
  unfoldable pub run_public : Request → Routing → State V S → State V S
  run_public req route s =
      if req.method == 1
      then put (status_of (get_output req route)) (get_output req route) s
      else record s { status = 400 }

  -- The limit is a qint64 that is compared as a uint of 32 bits.
  abbrev pub too_large : Request → Bool
  too_large req =
      ltb 0 e.settings.limit_request_body
      && ltb (e.settings.limit_request_body % 2 ^ 32) req.content_length

  abbrev pub run_found : Request → Routing → Option (Handlers V S) → Effect (State V S) Done
  run_found req route none = modify (run_public req route)
  run_found req route (some h) = run_controller e h req route.action route.params

  unfoldable pub run_route : Request → Routing → Effect (State V S) Done
  run_route req route = run_found req route (controllers route.controller)

  -- The body of the try block.
  unfoldable pub try_execute : Request → Effect (State V S) Done
  try_execute req = if too_large req then throw (client_error 413) else run_route req (route_of req)

  -- The catch clauses.
  unfoldable pub handle : Result Done × State V S → State V S
  handle (ok _, s) = s
  handle (client_error code, s) = put code (Response.write_status e.site code Response.new) s
  handle (failure, s) = put 500 closed s

  -- accessLogger.write()
  abbrev pub write_log : State V S → State V S
  write_log s = record s { logged = s.logged ++ s.status ∷ [] }

  -- execute(request)
  unfoldable pub execute : Request → State V S → State V S
  execute req s = write_log (handle (try_execute req s))
