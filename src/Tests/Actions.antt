-- ===== src/Tests/Actions.antt =====
-- Runs of the code of src/tactioncontext.cpp and src/tdispatcher.h, with an application that has one
-- controller and keeps sessions in the cookie.
use tf.Base.{
  ℕ, ◌≡◌, refl, Bool, true, false, ◌||◌, [], ◌∷◌, ◌++◌, none, some, if◌then◌else◌, ◌==◌, arith,
  length, min,
}
use tf.Base.Int.{pos}
use tf.Base.Text.{codes, eq, split_at, split, starts_with, ends_with}
use tf.Route.Parse.{split_path}
use tf.Route.Find.{find_routing}
use tf.Session as Session
use tf.Session.{Session, Store, find_session}
use tf.Session.Cookie.{cookie_store, find, find_parts}
use tf.DatabaseContext.{
  ok as got_ok, get_sql_database, commit_transactions, set_transaction_enabled,
}
use tf.DatabaseContext.Idle.{fresh}
use tf.Transaction.{Connection, Call}
use tf.Action.Exceptions.{ok, client_error, ◌>>=◌, modify, when}
use tf.Action.Response as Response
use tf.Action.Response.{Output, closed}
use tf.Action.Controller as Controller
use tf.Action.Controller.{Controller, Settings, Values, Work, export_all_flash_variants}
use tf.Base.{List}
use tf.Action.Steps.{
  prepare, verify, renew_session, Request, State, Handlers, Surroundings, put, set_work,
  load_session, store_session, session_cookie,
}
use tf.Action.{Site, execute, from_url_encoding, route_of, default_routing, write_log}
use tf.Action.Answering.{Answered, is_answered, execute-Answered}
use tf.Action.Forgery.{Genuine, loaded, execute-forged}
use tf.Action.Unfinished.{Throws, active_on, execute-client_error}
use tf.Action.Continuing.{load_session-store_session}
use tf.Dispatcher.{find_method, invoke, find_down, find_up, arguments}
use tf.Dispatcher.Choice.{Choice, find_method-Choice}
use tf.Tests.Databases.{working, in_use}
use tf.Lz4.{lz4_uncompress, uncompress_from}
use tf.Tests.Sessions.{plain, plain-IsCodec, csrf, cookie}

abbrev settings : Settings
settings = record {
  limit_request_body = 1000;
  enable_csrf_protection_module = true;
  session_auto_id_regeneration = false;
  session_store_is_cookie = true;
  session_name = codes "TFSESSION";
  session_csrf_protection_key = codes "_csrfId";
  session_secret = codes "secret";
  session_cookie_max_age = 0;
  session_cookie_path = codes "/";
  session_cookie_domain = [];
  session_gc_probability = 0;
  session_gc_max_life_time = 0;
  direct_view_render_mode = false;
}

abbrev values : Values ℕ
values = record {
  to_byte_array = λ v. v ∷ [];
  of_byte_array = λ t. length t;
  of_map = λ m. length m;
  of_text = λ t. length t;
  sha1_hex = λ t. t;
}

abbrev surroundings : Surroundings ℕ ℕ
surroundings = record {
  settings = settings;
  values = values;
  factory = some (cookie_store plain csrf);
  create_hash = λ k. k ∷ [];
  driver = working;
  registered = λ sid. false;
  now = 100;
  random = 1;
  site = record {
    number = λ n. n ∷ [];
    error_page = λ n. [];
    current_date = [];
    keep_alive_timeout = 10;
  };
  to_lower = λ t. t;
  to_raw_form = λ c. c.value;
  codec_name = codes "utf-8";
}

abbrev blog : Handlers ℕ ℕ
blog = record {
  session_enabled = true;
  csrf_protection_enabled = true;
  exception_actions = [];
  transaction_enabled = true;
  pre_filter = λ w. (ok true, w);
  invoke = λ action params w. (ok true, w);
  post_filter = λ w. (ok tt, w);
}

abbrev start : Work ℕ ℕ
start = record {
  controller = Controller.new (Session.new []);
  shared = (0, fresh (λ id. 2));
  seq = 0;
}

abbrev first : Connection
first = record { database_id = 0; number = 1 }

-- An action that begins a transaction and is then forbidden.
abbrev begun : Work ℕ ℕ
begun = record start {
  shared = (
    0,
    record (fresh (λ id. 2)) {
      sql_databases = (0, active_on first) ∷ (1, tf.Transaction.new) ∷ [];
      pools = in_use;
    },
  );
}

abbrev forbidding : Handlers ℕ ℕ
forbidding = record blog {
  session_enabled = false;
  invoke = λ action params w. (client_error 403, begun);
}

abbrev site_of : Handlers ℕ ℕ → Site ℕ ℕ
site_of h = record {
  routes = [];
  controllers = λ name. if eq name (codes "blogcontroller") then some h else none;
  files = λ path. none;
  percent_decoded = λ t. t;
  from_utf8 = λ t. t;
  to_latin1 = λ t. t;
  canonical_path = λ t. t;
  media_type = λ t. t;
  to_encoded = λ t. t;
  to_http_date = λ n. n ∷ [];
  from_http_date = λ t. none;
}

abbrev site : Site ℕ ℕ
site = site_of blog

abbrev state : State ℕ ℕ
state = record {
  work = start;
  sent = [];
  socket_sends = [];
  auto_remove_files = [];
  status = 0;
  logged = [];
}

-- A POST whose session has no token against forgery.
abbrev forged : Request
forged = record {
  method = 3;
  path = codes "/blog/save?x";
  content_length = 10;
  session_cookie = cookie;
  authenticity_token = codes "guess";
  if_modified_since = [];
}

execute-Answered_example :
    Answered surroundings site
      (is_answered surroundings site forged)
      state
      (execute surroundings site forged state)
execute-Answered_example = execute-Answered surroundings site forged state

route-forged :
    (site.controllers (route_of surroundings site forged).controller ≡ some blog)
    × ((route_of surroundings site forged).action ≡ codes "save")
unfolding route_of default_routing from_url_encoding split_path split_at split starts_with ends_with
    find_routing eq
route-forged = (refl, refl)

not-Genuine : ¬ (
    Genuine settings values (codes "guess") (loaded surroundings site blog forged state).controller)
unfolding load_session find_session cookie_store find find_parts eq split export_all_flash_variants
    Session.value Session.remove lz4_uncompress uncompress_from
not-Genuine g = cc (g.1 refl)

execute-forged_example :
    execute surroundings site forged state
    ≡ write_log surroundings site
        (put 500 closed (set_work (loaded surroundings site blog forged state) state))
execute-forged_example =
    execute-forged surroundings site blog forged state route-forged.0 refl refl not-Genuine

abbrev forbidden : Request
forbidden = record forged { method = 1 }

route-forbidden :
    (site_of forbidding).controllers
      (route_of surroundings (site_of forbidding) forbidden).controller
    ≡ some forbidding
unfolding route_of default_routing from_url_encoding split_path split_at split starts_with ends_with
    find_routing eq
route-forbidden = refl

forbidding-Throws : Throws surroundings (site_of forbidding) forbidding forbidden state 403 begun
unfolding prepare verify renew_session set_transaction_enabled tf.DatabaseContext.put
    tf.DatabaseContext.at ◌>>=◌ modify when
forbidding-Throws = record {
  known = route-forbidden;
  small = refl;
  ready = _;
  filtered = _;
  prepared = refl;
  filter_ok = refl;
  thrown = refl;
}

execute-client_error_example :
    let s' = execute surroundings (site_of forbidding) forbidden state in
    let dbs = s'.work.shared.1 in
    (s'.sent ≡ [] ++ Response.write_status surroundings.site 403 Response.new ∷ [])
    × (get_sql_database working 1 (pos 0) dbs ≡ got_ok (some first, dbs))
    × ((more : List Call) × ((commit_transactions working dbs).calls
          ≡ dbs.calls ++ Call.commit first true ∷ more))
execute-client_error_example =
    execute-client_error surroundings (site_of forbidding) forbidding forbidden state 403 begun 0 1
      first ((1, tf.Transaction.new) ∷ []) forbidding-Throws refl (omega arith)

-- The work at the end of an action that has put a value into the session.
abbrev signed_in : Work ℕ ℕ
signed_in = record start {
  controller = Controller.new (record { id = codes "1"; vars = (codes "user", 5) ∷ [] });
}

load_session-store_session_example :
    let stored = store_session surroundings blog signed_in in
    let id = stored.controller.session.id in
    (stored.controller.cookie_jar ≡ Controller.add_to_jar (session_cookie surroundings blog id) [])
    × ((load_session surroundings blog
          (record forged { session_cookie = id })
          start).controller.session
        ≡ record {
          id = id;
          vars = Session.remove Controller.flash_vars_session_key ((codes "user", 5) ∷ []);
        })
load_session-store_session_example =
    load_session-store_session surroundings blog plain csrf signed_in start forged
      (5 ∷ codes "user") plain-IsCodec refl refl refl refl refl refl (omega arith)

-- An action with slots for one and for three parameters.
abbrev slots : ℕ → Bool
slots k = k == 1 || k == 3

find_method-Choice_example :
    Choice slots (min 2 10) (find_method slots (codes "a" ∷ codes "b" ∷ []))
find_method-Choice_example = find_method-Choice slots (codes "a" ∷ codes "b" ∷ [])

-- A slot with ten parameters is found with ten arguments only.
ten_parameters : find_method (λ k. k == 10) (codes "a" ∷ []) ≡ none
unfolding find_method find_down find_up
ten_parameters = refl

one_of_two : invoke slots (codes "a" ∷ codes "b" ∷ []) ≡ some (codes "a" ∷ [])
unfolding invoke find_method find_down find_up arguments
one_of_two = refl
