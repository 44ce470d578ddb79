-- ===== src/Action/Steps.antt =====
-- src/tactioncontext.cpp: the steps of execute() for a controller, in their order. The controller of
-- an application is a record of functions; what a request is and what QUrl, QFile and the codecs give
-- are records too.
mod Parts
pub use Parts.*
use tf.Base.{
  ℕ, ◌+◌, Bool, true, false, not, ◌&&◌, ◌||◌, List, [], ◌∷◌, ◌++◌, Option, none, some,
  if◌then◌else◌, ◌==◌, any, length, ltb,
}
use tf.Base.Int.{pos}
use tf.Base.Text.{Text, codes, eq, is_empty, starts_with, contains}
use tf.Session as Session
use tf.Session.{Session, Store}
use tf.DatabaseContext as Databases
use tf.DatabaseContext.{Context}
use tf.Transaction.{Driver}
use tf.Action.Exceptions.{
  Effect, Result, ok, client_error, failure, Done, pure, modify, when, zoom, ◌>>=◌, ◌>>◌,
}
use tf.Action.Controller as Controller
use tf.Action.Controller.{
  Controller, Cookie, SocketTask, send_text_to, send_binary_to, send_close_to, Settings, Values,
  Work, on_controller, verify_request,
}
use tf.Action.Response as Response
use tf.Action.Response.{Output, Site, Head}
use tf.HttpUtility.Reasons.{get_response_reason_phrase}

module _ {V S : Type 0} (e : Surroundings V S) (h : Handlers V S) where
  open e use {
    settings, values, factory, create_hash, driver, registered, now, random, site, to_lower,
    to_raw_form, codec_name,
  }

  -- The session of the request's cookie is found, and its flash values are exported.
  unfoldable pub load_session : Request → Work V S → Work V S
  load_session req w =
      let found = Session.find_session factory req.session_cookie w.shared in
      on_controller Controller.export_all_flash_variants
        (on_session (λ s. found.0) (record w { shared = found.1 }))

  abbrev pub is_protected : Request → Text → Bool
  is_protected req action =
      settings.enable_csrf_protection_module
      && h.csrf_protection_enabled
      && not (any (λ a. eq a action) h.exception_actions)
      && changes_state req.method

  abbrev pub accepted : Result Bool → Result Done
  accepted (ok true) = ok tt
  accepted (ok false) = failure
  accepted (client_error code) = client_error code
  accepted failure = failure

  -- "Verify authenticity token"
  unfoldable pub verify : Request → Text → Effect (Work V S) Done
  verify req action w =
      if is_protected req action
      then (
        accepted (
            verify_request settings values h.csrf_protection_enabled req.authenticity_token
              w.controller),
        w,
      )
      else (ok tt, w)

  -- The old session is removed.
  unfoldable pub remove_old : Work V S → Work V S
  remove_old w = record w {
    shared = (Session.remove_session factory w.controller.session.id w.shared).1;
  }

  -- "Re-generate session ID"
  unfoldable pub regenerate : Effect (Work V S) Done
  regenerate w =
      when (settings.session_auto_id_regeneration || is_empty w.controller.session.id)
        (modify remove_old
          >> (Controller.generate_id settings values factory create_hash
              >>= (λ id. modify (on_session (λ s. record s { id = id })))))
        w

  unfoldable pub renew_session : Effect (Work V S) Done
  renew_session =
      when h.session_enabled
        (regenerate >> Controller.set_csrf_protection_into settings values factory create_hash)

  -- The session is stored; its cookie is set and the transactions are committed if it could be.
  abbrev pub session_cookie : Text → Cookie
  session_cookie id = record {
    name = settings.session_name;
    value = id;
    expire =
        if ltb 0 settings.session_cookie_max_age
        then some (now + settings.session_cookie_max_age)
        else none;
    path = settings.session_cookie_path;
    domain = settings.session_cookie_domain;
    secure = false;
    http_only = true;
  }

  abbrev pub after_store : Work V S → Bool × Session V × (S × Context) → Work V S
  after_store w (stored, session, shared) =
      let kept = on_session (λ s. session) (record w { shared = shared }) in
      if stored
      then on_databases (Databases.commit_transactions driver)
          (on_controller (λ c. (Controller.add_cookie (session_cookie session.id) c).1) kept)
      else kept

  unfoldable pub store_session : Work V S → Work V S
  store_session w =
      if h.session_enabled
      then after_store w (Session.store factory w.controller.session w.shared)
      else w

  unfoldable pub end_transactions : Work V S → Work V S
  end_transactions w =
      on_databases
        (if w.controller.rollback
          then Databases.rollback_transactions driver
          else Databases.commit_transactions driver)
        w

  abbrev socket_of : SocketTask → ℕ
  socket_of (send_text_to sid t) = sid
  socket_of (send_binary_to sid b) = sid
  socket_of (send_close_to sid code) = sid

  -- The tasks for WebSockets that searchWebSocket() finds.
  unfoldable pub found_tasks : List SocketTask → List SocketTask
  found_tasks [] = []
  found_tasks (t ∷ ts) = if registered (socket_of t) then t ∷ found_tasks ts else found_tasks ts

  unfoldable pub send_tasks : State V S → State V S
  send_tasks s = record s {
    socket_sends = s.socket_sends ++ found_tasks s.work.controller.task_list;
  }

  unfoldable pub keep_files : State V S → State V S
  keep_files s = record s {
    auto_remove_files = s.auto_remove_files ++ s.work.controller.auto_remove_files;
  }

  -- What follows an action that has been dispatched.
  unfoldable pub after_action : Effect (State V S) Done
  after_action =
      modify keep_files
      >> (on_work (h.post_filter >> modify (λ w. store_session (end_transactions w)))
          >> modify send_tasks)

  unfoldable pub dispatch : Text → List Text → Effect (State V S) Bool
  dispatch action params = do
    dispatched ← on_work (h.invoke action params)
    when dispatched after_action
    pure dispatched

  -- "Do filters"
  unfoldable pub run_action : Text → List Text → Effect (State V S) Bool
  run_action action params = do
    accepted_by_filter ← on_work h.pre_filter
    if accepted_by_filter then dispatch action params else pure false

  -- "Sets charset to the content-type"
  unfoldable pub with_charset : Controller V → Controller V
  with_charset c =
      let ctype = to_lower c.content_type in
      if starts_with ctype (codes "text") && not (contains ctype (codes "charset"))
      then record c { content_type = ctype ++ (codes "; charset=" ++ codec_name) }
      else c

  abbrev cookies_of : List Cookie → List Text
  cookies_of [] = []
  cookies_of (c ∷ cs) = to_raw_form c ∷ cookies_of cs

  abbrev pub head_of : Controller V → Head
  head_of c = record Response.new {
    status_code = c.stat_code;
    reason = get_response_reason_phrase c.stat_code;
    content_type = c.content_type;
    location = c.location;
    set_cookies = cookies_of c.cookie_jar;
  }

  abbrev pub body_length : Controller V → Text → ℕ
  body_length c body = if ltb 0 c.content_length then c.content_length else length body

  -- The status where an action has rendered nothing.
  abbrev pub default_status : Bool → ℕ
  default_status dispatched = if dispatched then 500 else 404

  abbrev pub body_output : Controller V → Text → Output
  body_output c body = Response.write_body site (head_of c) (some body) (body_length c body)

  abbrev pub answer_with : Bool → Controller V → Option Text → State V S → State V S
  answer_with dispatched c none s =
      put (default_status dispatched)
        (Response.write_status site (default_status dispatched) Response.new) s
  answer_with dispatched c (some body) s = put c.stat_code (body_output c body) s

  -- The response of the action, or a page with a status where it has rendered nothing.
  unfoldable pub answer : Bool → State V S → State V S
  answer dispatched s =
      let c = with_charset s.work.controller in
      answer_with dispatched c c.body (record s { work = record s.work { controller = c } })

  -- "Session GC"
  unfoldable pub finish_session : Work V S → Work V S
  finish_session w =
      if h.session_enabled
      then on_databases (Databases.commit_transactions driver) (record w {
        shared =
            Session.collect_garbage factory settings.session_gc_probability random now
              settings.session_gc_max_life_time w.shared;
      })
      else w

  unfoldable pub conclude : Bool → Effect (State V S) Done
  conclude dispatched = modify (answer dispatched) >> on_work (modify finish_session)

  -- What precedes the filters.
  unfoldable pub prepare : Request → Text → Effect (Work V S) Done
  prepare req action =
      modify (λ w. if h.session_enabled then load_session req w else w)
      >> (verify req action
          >> (renew_session
              >> modify (
                  on_databases
                    (Databases.set_transaction_enabled driver h.transaction_enabled (pos 0)))))

  -- The part of execute() for a controller.
  unfoldable pub run_controller : Request → Text → List Text → Effect (State V S) Done
  run_controller req action params =
      on_work (prepare req action) >> (run_action action params >>= conclude)
