-- ===== src/Endpoint.antt =====
-- src/twebsocketendpoint.h and src/twebsocketendpoint.cpp: the operations by which the handlers of an
-- endpoint queue tasks. Texts are lists of code units. Close codes, intervals and the numbers of
-- sockets are natural numbers: an interval below 0 takes the branch of 0.
pub mod Tasks
use tf.Base.{ℕ, Bool, true, false, List, [], ◌∷◌, ◌++◌, Option, some, if◌then◌else◌, ltb}
use tf.Base.Text.{Text}
use tf.Endpoint.Tasks.{Task}

-- The members of an endpoint that the handlers change. A session is of any type.
pub record Endpoint (S : Type 0) : Type 0 where
  pub session_store : S
  pub task_list : List Task
  pub rollback : Bool

-- The constructor, with the session that the worker sets.
abbrev pub new : {S : Type 0} → S → Endpoint S
new s = record { session_store = s; task_list = []; rollback = false }

module _ {S : Type 0} where
  abbrev pub queue : Task → Endpoint S → Endpoint S
  queue task e = record e { task_list = e.task_list ++ task ∷ [] }

  unfoldable pub send_text : Text → Endpoint S → Endpoint S
  send_text t = queue (Task.send_text t)

  unfoldable pub send_binary : Text → Endpoint S → Endpoint S
  send_binary b = queue (Task.send_binary b)

  unfoldable pub ping : Text → Endpoint S → Endpoint S
  ping payload = queue (Task.send_ping payload)

  unfoldable pub send_ping : Text → Endpoint S → Endpoint S
  unfolding ping
  send_ping payload = ping payload

  unfoldable pub send_pong : Text → Endpoint S → Endpoint S
  send_pong payload = queue (Task.send_pong payload)

  unfoldable pub close : ℕ → Endpoint S → Endpoint S
  close close_code = queue (Task.send_close close_code)

  unfoldable pub send_text_to : ℕ → Text → Endpoint S → Endpoint S
  send_text_to sid t = queue (Task.send_text_to sid t)

  unfoldable pub send_binary_to : ℕ → Text → Endpoint S → Endpoint S
  send_binary_to sid b = queue (Task.send_binary_to sid b)

  unfoldable pub close_socket : ℕ → ℕ → Endpoint S → Endpoint S
  close_socket sid close_code = queue (Task.send_close_to sid close_code)

  unfoldable pub subscribe : Text → Bool → Endpoint S → Endpoint S
  subscribe topic local = queue (Task.subscribe topic local)

  unfoldable pub unsubscribe : Text → Endpoint S → Endpoint S
  unsubscribe topic = queue (Task.unsubscribe topic)

  unfoldable pub unsubscribe_from_all : Endpoint S → Endpoint S
  unsubscribe_from_all = queue Task.unsubscribe_from_all

  unfoldable pub publish_text : Text → Text → Endpoint S → Endpoint S
  publish_text topic t = queue (Task.publish_text topic t)

  unfoldable pub publish_binary : Text → Text → Endpoint S → Endpoint S
  publish_binary topic b = queue (Task.publish_binary topic b)

  unfoldable pub start_keep_alive : ℕ → Endpoint S → Endpoint S
  start_keep_alive interval =
      queue (if ltb 0 interval then Task.start_keep_alive interval else Task.stop_keep_alive)

  unfoldable pub send_http : ℕ → Text → Endpoint S → Endpoint S
  send_http id d = queue (Task.http_send id d)

  unfoldable pub rollback_transaction : Endpoint S → Endpoint S
  rollback_transaction e = record e { rollback = true }

  abbrev pub rollback_requested : Endpoint S → Bool
  rollback_requested e = e.rollback

-- The virtual functions of an endpoint, which the application defines: `none` is an exception. H is
-- the type of a session over HTTP.
pub record Handlers (H S : Type 0) : Type 0 where
  pub on_open : H → Endpoint S → Option (Bool × Endpoint S)
  pub on_close : ℕ → Endpoint S → Option (Endpoint S)
  pub on_text_received : Text → Endpoint S → Option (Endpoint S)
  pub on_binary_received : Text → Endpoint S → Option (Endpoint S)
  pub on_ping : Text → Endpoint S → Option (Endpoint S)
  pub on_pong : Text → Endpoint S → Option (Endpoint S)
  pub keep_alive_interval : ℕ

-- The functions of the base class.
unfoldable pub base : (H S : Type 0) → Handlers H S
unfolding send_pong
base H S = record {
  on_open = λ session e. some (true, e);
  on_close = λ close_code e. some e;
  on_text_received = λ t e. some e;
  on_binary_received = λ b e. some e;
  on_ping = λ payload e. some (send_pong payload e);
  on_pong = λ payload e. some e;
  keep_alive_interval = 0;
}
