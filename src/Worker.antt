-- ===== src/Worker.antt =====
-- src/twebsocketworker.cpp: a worker runs the handler of an endpoint for an event of a WebSocket, and
-- then the tasks that the handler has queued. The endpoint, which the dispatcher has found by the
-- path, is a parameter, and so is QString::fromUtf8().
pub mod Sockets
pub mod Loop
pub mod Stable
pub mod Keeping
pub mod Closing
pub mod Leaving
pub mod Opening
pub mod Answering
use tf.Base.{
  ℕ, Bool, true, false, List, [], ◌∷◌, Option, none, some, if◌then◌else◌, ltb, leb, ◌==◌, length,
  take,
}
use tf.Base.Text.{Text}
use tf.Base.Bytes.{be_value}
use tf.Endpoint as Endpoint
use tf.Endpoint.{Endpoint, Handlers}
use tf.Endpoint.Tasks.{Task}
use tf.Worker.Sockets.{Socket}
use tf.Worker.Loop.{World, change, finish}

pub data Mode (H : Type 0) : Type 0 where
  opening : H → Mode H
  closing : Mode H
  receiving : List (ℕ × List ℕ) → Mode H

-- Tf::GoingAway
abbrev pub going_away : ℕ
going_away = 1001

-- The close code of a frame's payload.
unfoldable pub close_code_of : List ℕ → ℕ
close_code_of payload = if leb 2 (length payload) then be_value (take 2 payload) else going_away

infixl 5 ◌>>=◌
abbrev ◌>>=◌ : {A B : Type 0} → Option A → (A → Option B) → Option B
none >>= f = none
some a >>= f = f a

module _ {H S : Type 0} (handlers : Handlers H S) where
  abbrev prepend : Task → Endpoint S → Endpoint S
  prepend task e = record e { task_list = task ∷ e.task_list }

  abbrev opened : Bool × Endpoint S → Endpoint S
  opened (true, e) =
      let accepted = prepend Task.open_success e in
      if ltb 0 handlers.keep_alive_interval
      then Endpoint.start_keep_alive handlers.keep_alive_interval accepted
      else accepted
  opened (false, e) = prepend Task.open_error e

  -- `if (!_socket->closing.exchange(true))`, with the flag before.
  unfoldable pub close_once : Bool → ℕ → Endpoint S → Option (Endpoint S)
  close_once true code e = some e
  close_once false code e = do
    e' ← handlers.on_close code e
    some (Endpoint.unsubscribe_from_all e')

  -- The handler for a message, by its opcode, given closing before.
  module _ (from_utf8 : List ℕ → Text) where
    unfoldable pub receive : Bool → ℕ × List ℕ → Endpoint S → Option (Endpoint S)
    receive was_closing (opcode, payload) e =
        if opcode == 1
        then handlers.on_text_received (from_utf8 payload) e
        else if opcode == 2
        then handlers.on_binary_received payload e
        else if opcode == 8
        then close_once was_closing (close_code_of payload) e
          >>= (λ e'. some (Endpoint.close (close_code_of payload) e'))
        else if opcode == 9
        then handlers.on_ping payload e
        else if opcode == 10
        then handlers.on_pong payload e
        else some e

    abbrev set_closing : ℕ → World S → World S
    set_closing id = change id (λ s. record s { closing = true })

    -- execute(), in the three modes.
    unfoldable pub execute_opening : ℕ → ℕ → H → World S → World S
    execute_opening servers id session w =
        finish servers id
          (handlers.on_open session (Endpoint.new (w.sockets id).session_store)
            >>= (λ r. some (opened r)))
          w

    unfoldable pub execute_closing : ℕ → ℕ → World S → World S
    execute_closing servers id w =
        let s = w.sockets id in
        finish servers id (close_once s.closing going_away (Endpoint.new s.session_store))
          (set_closing id w)

    unfoldable pub execute_message : ℕ → ℕ → ℕ × List ℕ → World S → World S
    execute_message servers id m w =
        let s = w.sockets id in
        finish servers id (receive s.closing m (Endpoint.new s.session_store))
          (if m.0 == 8 then set_closing id w else w)

    unfoldable pub execute_messages : ℕ → ℕ → List (ℕ × List ℕ) → World S → World S
    execute_messages servers id [] w = w
    execute_messages servers id (m ∷ ms) w =
        execute_messages servers id ms (execute_message servers id m w)

    -- run()
    unfoldable pub run : ℕ → ℕ → Mode H → World S → World S
    run servers id (opening session) w = execute_opening servers id session w
    run servers id closing w = execute_closing servers id w
    run servers id (receiving payloads) w = execute_messages servers id payloads w

    -- The workers of a socket, one after the other.
    abbrev pub run_all : ℕ → ℕ → List (Mode H) → World S → World S
    run_all servers id [] w = w
    run_all servers id (m ∷ ms) w = run_all servers id ms (run servers id m w)
