-- ===== src/Action/Controller.antt =====
-- src/tactioncontroller.h and src/tactioncontroller.cpp: what a TActionController keeps for a request,
-- its session, flash values and logins, and the protection against forged requests.
use tf.Base.{
  ℕ, Bool, true, false, not, ◌&&◌, ◌||◌, List, [], ◌∷◌, ◌++◌, Option, none, some, if◌then◌else◌,
  ◌==◌, any,
}
use tf.Base.Text.{Text, codes, eq, is_empty}
use tf.Session as Session
use tf.Session.{Session, Store, Generated, generated, thrown}
use tf.DatabaseContext.{Context}
use tf.Action.Exceptions.{Effect, Result, ok, failure, Done, modify, when, ◌>>=◌}

-- TActionController::WebSocketTaskType with the values of a task.
pub data SocketTask : Type 0 where
  send_text_to : ℕ → Text → SocketTask
  send_binary_to : ℕ → Text → SocketTask
  send_close_to : ℕ → ℕ → SocketTask

pub record Cookie : Type 0 where
  pub name : Text
  pub value : Text
  pub expire : Option ℕ
  pub path : Text
  pub domain : Text
  pub secure : Bool
  pub http_only : Bool

-- The members that the context reads, with the parts of the response's header that it reads or sets.
pub record Controller (V : Type 0) : Type 0 where
  pub session : Session V
  pub exported : Option V
  pub flash_vars : List (Text × V)
  pub stat_code : ℕ
  pub rendered : Bool
  pub body : Option Text
  pub content_type : Text
  pub content_length : ℕ
  pub location : Text
  pub cookie_jar : List Cookie
  pub rollback : Bool
  pub auto_remove_files : List Text
  pub task_list : List SocketTask

-- A controller when its action has not run yet.
abbrev pub new : {V : Type 0} → Session V → Controller V
new session = record {
  session = session;
  exported = none;
  flash_vars = [];
  stat_code = 200;
  rendered = false;
  body = none;
  content_type = [];
  content_length = 0;
  location = [];
  cookie_jar = [];
  rollback = false;
  auto_remove_files = [];
  task_list = [];
}

-- The settings of an application that the context reads. session_store_is_cookie is whether the
-- name of the store, in lower case, is "cookie".
pub record Settings : Type 0 where
  pub limit_request_body : ℕ
  pub enable_csrf_protection_module : Bool
  pub session_auto_id_regeneration : Bool
  pub session_store_is_cookie : Bool
  pub session_name : Text
  pub session_csrf_protection_key : Text
  pub session_secret : Text
  pub session_cookie_max_age : ℕ
  pub session_cookie_path : Text
  pub session_cookie_domain : Text
  pub session_gc_probability : ℕ
  pub session_gc_max_life_time : ℕ
  pub direct_view_render_mode : Bool

-- QVariant and its conversions, and the hash of Qt, in hexadecimal digits.
pub record Values (V : Type 0) : Type 0 where
  pub to_byte_array : V → Text
  pub of_byte_array : Text → V
  pub of_map : List (Text × V) → V
  pub of_text : Text → V
  pub sha1_hex : Text → Text

-- What an action can work on: its controller, what the requests share and the databases of the
-- context, and how often createHash() has been called.
pub record Work (V S : Type 0) : Type 0 where
  pub controller : Controller V
  pub shared : S × Context
  pub seq : ℕ

abbrev pub flash_vars_session_key : Text
flash_vars_session_key = codes "_flashVariants"

abbrev pub login_user_name_key : Text
login_user_name_key = codes "_loginUserName"

-- QByteArray::contains(char)
abbrev pub has : ℕ → Text → Bool
has c = any (λ d. d == c)

-- The first cookie of a name is taken out.
abbrev pub remove_named : Text → List Cookie → List Cookie
remove_named name [] = []
remove_named name (c ∷ cs) = if eq c.name name then cs else c ∷ remove_named name cs

-- TCookieJar::addCookie()
abbrev pub add_to_jar : Cookie → List Cookie → List Cookie
add_to_jar cookie jar = remove_named cookie.name jar ++ cookie ∷ []

abbrev pub forbidden_in_name : Text → Bool
forbidden_in_name name =
    is_empty name || has b';' name || has b',' name || has b' ' name || has 34 name

module _ {V : Type 0} where
  abbrev pub with_vars : List (Text × V) → Controller V → Controller V
  with_vars vars c = record c { session = record c.session { vars = vars } }

  -- exportAllFlashVariants()
  unfoldable pub export_all_flash_variants : Controller V → Controller V
  export_all_flash_variants c = record c {
    exported = Session.value flash_vars_session_key c.session.vars;
    session = record c.session { vars = Session.remove flash_vars_session_key c.session.vars };
  }

  -- redirect(url, statusCode), with the URL in its encoded form.
  unfoldable pub redirect : (List (Text × V) → V) → Text → ℕ → Controller V → Controller V
  redirect of_map url status_code c = if c.rendered then c else record c {
    rendered = true;
    stat_code = status_code;
    location = url;
    body = some (codes "<html><body>redirected.</body></html>");
    content_type = codes "text/html";
    session = record c.session {
      vars = Session.insert flash_vars_session_key (of_map c.flash_vars) c.session.vars;
    };
  }

  -- userLogin(user), by the key of the user if there is one.
  unfoldable pub user_login : (Text → V) → Option Text → Controller V → Bool × Controller V
  user_login of_text none c = (false, c)
  user_login of_text (some key) c =
      if is_empty key
      then (false, c)
      else (true, with_vars (Session.insert login_user_name_key (of_text key) c.session.vars) c)

  -- userLogout()
  unfoldable pub user_logout : Controller V → Controller V
  user_logout c = with_vars (Session.remove login_user_name_key c.session.vars) c

  abbrev is_some : Option V → Bool
  is_some none = false
  is_some (some v) = true

  -- isUserLoggedIn()
  unfoldable pub is_user_logged_in : Controller V → Bool
  is_user_logged_in c = is_some (Session.value login_user_name_key c.session.vars)

  -- addCookie(): the header has the cookies of the jar.
  unfoldable pub add_cookie : Cookie → Controller V → Bool × Controller V
  add_cookie cookie c =
      if forbidden_in_name cookie.name
      then (false, c)
      else (true, record c { cookie_jar = add_to_jar cookie c.cookie_jar })

module _ {V S : Type 0} where
  abbrev pub on_controller : (Controller V → Controller V) → Work V S → Work V S
  on_controller f w = record w { controller = f w.controller }

  abbrev pub after_generate : Work V S → Generated (S × Context) → Result Text × Work V S
  after_generate w (generated id shared seq) = (ok id, record w { shared = shared; seq = seq })
  after_generate w (thrown shared seq) = (failure, record w { shared = shared; seq = seq })

module _ {V S : Type 0} (settings : Settings) (values : Values V)
    (factory : Option (Store V (S × Context))) (create_hash : ℕ → Text) where
  unfoldable pub generate_id : Effect (Work V S) Text
  generate_id w = after_generate w (Session.generate_id factory create_hash w.seq w.shared)

  -- setCsrfProtectionInto(session())
  unfoldable pub set_csrf_protection_into : Effect (Work V S) Done
  unfolding generate_id
  set_csrf_protection_into = when settings.session_store_is_cookie do
    id ← generate_id
    modify (
        on_controller (λ c.
          with_vars
            (Session.insert settings.session_csrf_protection_key (values.of_byte_array id)
              c.session.vars)
            c))

abbrev pub some_token : Text → Option Text
some_token csrf_id = if is_empty csrf_id then none else some csrf_id

-- QVariant::toByteArray(), which is empty where there is no value.
module _ {V : Type 0} (values : Values V) where
  abbrev pub bytes_of : Option V → Text
  bytes_of none = []
  bytes_of (some v) = values.to_byte_array v

-- The functions that check a request read the controller only.
module _ {V : Type 0} (settings : Settings) (values : Values V) where
  -- authenticityToken(): `none` is an exception.
  unfoldable pub authenticity_token : Controller V → Option Text
  authenticity_token c =
      if settings.session_store_is_cookie
      then some_token
          (bytes_of values (Session.value settings.session_csrf_protection_key c.session.vars))
      else some (values.sha1_hex (c.session.id ++ settings.session_secret))

  abbrev pub checked : Text → Option Text → Result Bool
  checked post_auth_token none = failure
  checked post_auth_token (some token) = ok (eq post_auth_token token)

  -- verifyRequest(), where csrfProtectionEnabled() is given and the token of the form is in Latin-1.
  unfoldable pub verify_request : Bool → Text → Controller V → Result Bool
  verify_request csrf_protection_enabled post_auth_token c =
      if not csrf_protection_enabled
      then ok true
      else if not settings.session_store_is_cookie && is_empty c.session.id
      then failure
      else if is_empty post_auth_token
      then failure
      else checked post_auth_token (authenticity_token c)
