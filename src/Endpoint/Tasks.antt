-- ===== src/Endpoint/Tasks.antt =====
-- src/twebsocketendpoint.h: the tasks of an endpoint. A task carries its data as arguments, in place
-- of a QVariant.
use tf.Base.{ℕ, Bool}
use tf.Base.Text.{Text}

-- enum TaskType
pub data Task : Type 0 where
  open_success : Task
  open_error : Task
  send_text : Text → Task
  send_binary : Text → Task
  send_close : ℕ → Task
  send_ping : Text → Task
  send_pong : Text → Task
  send_text_to : ℕ → Text → Task
  send_binary_to : ℕ → Text → Task
  send_close_to : ℕ → ℕ → Task
  subscribe : Text → Bool → Task
  unsubscribe : Text → Task
  unsubscribe_from_all : Task
  publish_text : Text → Text → Task
  publish_binary : Text → Text → Task
  start_keep_alive : ℕ → Task
  stop_keep_alive : Task
  http_send : ℕ → Text → Task
