-- ===== src/Action/Steps/Parts.antt =====
-- src/tactioncontext.cpp: what a request, the state of a context, a controller of an application and
-- the surroundings are, and how code on the work of an action acts on the whole state.
use tf.Base.{ℕ, Bool, ◌||◌, List, [], ◌∷◌, ◌++◌, Option, ◌==◌}
use tf.Base.Text.{Text}
use tf.Session.{Session, Store}
use tf.DatabaseContext.{Context}
use tf.Transaction.{Driver}
use tf.Action.Exceptions.{Effect, Done, zoom}
use tf.Action.Controller.{Cookie, SocketTask, Settings, Values, Work, on_controller}
use tf.Action.Response.{Output, Site}

-- What the code reads of a THttpRequest.
pub record Request : Type 0 where
  pub method : ℕ
  pub path : Text
  pub content_length : ℕ
  pub session_cookie : Text
  pub authenticity_token : Text
  pub if_modified_since : Text

-- What the context changes: the work of the action, what goes to the client and to WebSockets, the
-- files to be removed later, the status of the access log and the lines that are written to it.
pub record State (V S : Type 0) : Type 0 where
  pub work : Work V S
  pub sent : List Output
  pub socket_sends : List SocketTask
  pub auto_remove_files : List Text
  pub status : ℕ
  pub logged : List ℕ

-- A controller of an application, which overrides functions of TActionController.
pub record Handlers (V S : Type 0) : Type 0 where
  pub session_enabled : Bool
  pub csrf_protection_enabled : Bool
  pub exception_actions : List Text
  pub transaction_enabled : Bool
  pub pre_filter : Effect (Work V S) Bool
  pub invoke : Text → List Text → Effect (Work V S) Bool
  pub post_filter : Effect (Work V S) Done

-- The surroundings of a request: the settings, the session store, the databases, the sockets that are
-- registered, time and chance, and the functions of Qt on texts.
pub record Surroundings (V S : Type 0) : Type 0 where
  pub settings : Settings
  pub values : Values V
  pub factory : Option (Store V (S × Context))
  pub create_hash : ℕ → Text
  pub driver : Driver
  pub registered : ℕ → Bool
  pub now : ℕ
  pub random : ℕ
  pub site : Site
  pub to_lower : Text → Text
  pub to_raw_form : Cookie → Text
  pub codec_name : Text

-- Tf::Post, Tf::Put, Tf::Patch and Tf::Delete
abbrev pub changes_state : ℕ → Bool
changes_state method = method == 3 || method == 5 || method == 9 || method == 6

module _ {V S : Type 0} where
  abbrev pub set_work : Work V S → State V S → State V S
  set_work w s = record s { work = w }

  -- Code that works on what an action can reach.
  abbrev pub on_work : {A : Type 0} → Effect (Work V S) A → Effect (State V S) A
  on_work = zoom (λ s. s.work) set_work

  abbrev pub on_databases : (Context → Context) → Work V S → Work V S
  on_databases f w = record w { shared = (w.shared.0, f w.shared.1) }

  abbrev pub on_session : (Session V → Session V) → Work V S → Work V S
  on_session f w = on_controller (λ c. record c { session = f c.session }) w

  abbrev pub put : ℕ → Output → State V S → State V S
  put status o s = record s { sent = s.sent ++ o ∷ []; status = status }
