-- ===== src/Worker/Answering.antt =====
-- How a worker of src/twebsocketworker.cpp answers a close frame, and what is left undone when
-- onClose() throws an exception.
use tf.Base.{
  ℕ, zero, suc, ◌≡◌, refl, ap, ◌∙◌, Bool, true, false, List, [], ◌∷◌, ◌++◌, Option, none, some, inl,
  inr, Bool-cases, ==_refl, if◌then◌else◌, any, append_assoc, replicate,
}
use tf.Base.Text.{Text}
use tf.Endpoint as Endpoint
use tf.Endpoint.{Endpoint, Handlers}
use tf.Endpoint.Tasks.{Task}
use tf.Publisher.Flags.{flag_of}
use tf.Worker.Sockets as Sockets
use tf.Worker.Sockets.{Output}
use tf.Worker.Loop.{World, change, finish, run_task, run_tasks, renewed, is_closed}
use tf.Worker.Closing.{IsClosing}
use tf.Worker.Leaving.{is_open_error, leaves, run-IsClosing, execute_message-IsClosing}
use tf.Worker.{
  closing, run_all, run, execute_closing, execute_message, close_once, receive, close_code_of,
}

module _ {S : Type 0} (servers id : ℕ) where
  renewed-topics : (r : World S × Option Bool) → (renewed id r).topics ≡ r.0.topics
  renewed-topics (w, none) = refl
  renewed-topics (w, some true) = refl
  renewed-topics (w, some false) = refl

  send_close-topics :
      (code : ℕ) (w : World S) (sent : Bool)
      → (run_tasks servers id (Task.send_close code ∷ []) (w, sent)).0.topics ≡ w.topics
  unfolding run_tasks run_task
  send_close-topics code w sent = elim (Bool-cases (is_closed (w.sockets id))) [
    | inl c ↦ rw c
    | inr c ↦ rw c
  ]

  finish-leaves :
      (topic : Text) (code : ℕ) (e : Endpoint S) (w : World S)
      → any is_open_error e.task_list ≡ false
      → flag_of topic id
          (finish servers id
            (some (Endpoint.close code (Endpoint.unsubscribe_from_all e)))
            w).topics
        ≡ none
  unfolding finish Endpoint.close Endpoint.unsubscribe_from_all
  finish-leaves topic code e w h =
      let tasks = (e.task_list ++ Task.unsubscribe_from_all ∷ []) ++ Task.send_close code ∷ [] in
      let ready = change id (λ s. record s { session_store = e.session_store }) w in
      ap (λ p. flag_of topic id p) (renewed-topics (run_tasks servers id tasks (ready, false)))
      ∙ ap (λ ts. flag_of topic id (run_tasks servers id ts (ready, false)).0.topics)
          (append_assoc e.task_list (Task.unsubscribe_from_all ∷ []) (Task.send_close code ∷ []))
      ∙ leaves servers id topic (Task.send_close code ∷ []) (send_close-topics code) e.task_list
          ready false h

module _ {H S : Type 0} (handlers : Handlers H S) (from_utf8 : List ℕ → Text) (servers id : ℕ) where
  -- When the first close frame has been answered, the socket is subscribed to no topic, whatever
  -- onClose() has queued before it returned.
  pub execute_message-leaves :
      (payload : List ℕ) (w : World S) (e : Endpoint S) (topic : Text)
      → (w.sockets id).closing ≡ false
      → handlers.on_close (close_code_of payload) (Endpoint.new (w.sockets id).session_store)
        ≡ some e
      → any is_open_error e.task_list ≡ false
      → flag_of topic id (execute_message handlers from_utf8 servers id (8, payload) w).topics
        ≡ none
  unfolding execute_message receive close_once
  execute_message-leaves payload w e topic first called tasks =
      rw (first, called) (finish-leaves servers id topic (close_code_of payload) e _ tasks)

  -- A close frame is answered once: where onClose() queues nothing, the socket gets a close frame
  -- with the code that was received if it has not sent one before, and is disconnected otherwise.
  -- After it both flags are set.
  pub execute_message-answers :
      (payload : List ℕ) (w : World S)
      → handlers.on_close (close_code_of payload) (Endpoint.new (w.sockets id).session_store)
        ≡ some (Endpoint.new (w.sockets id).session_store)
      → let s = w.sockets id in
        let s' = (execute_message handlers from_utf8 servers id (8, payload) w).sockets id in
        (s'.output
          ≡ s.output
            ++ (if s.close_sent then Output.disconnected else Output.close (close_code_of payload))
              ∷ [])
        × (s'.closing ≡ true)
        × (s'.close_sent ≡ true)
  unfolding execute_message receive close_once finish Endpoint.close Endpoint.unsubscribe_from_all
      run_tasks run_task Sockets.send_close
  execute_message-answers payload w called = elim (Bool-cases (w.sockets id).closing) [
    | inl c ↦ elim (Bool-cases (w.sockets id).close_sent) [
      | inl d ↦ rw (c, ==_refl id, d, ==_refl id) (refl, refl, d)
      | inr d ↦ rw (c, ==_refl id, d, ==_refl id, d) (refl, refl, refl)
    ]
    | inr c ↦ elim (Bool-cases (w.sockets id).close_sent) [
      | inl d ↦ rw (c, called, ==_refl id, d, ==_refl id) (refl, refl, d)
      | inr d ↦ rw (c, called, ==_refl id, d, ==_refl id, d) (refl, refl, refl)
    ]
  ]

  run-topics :
      (w : World S)
      → IsClosing (w.sockets id)
      → (run handlers from_utf8 servers id closing w).topics ≡ w.topics
  unfolding run execute_closing close_once finish run_tasks
  run-topics w h = rw h

  run_all-topics :
      (n : ℕ) (w : World S)
      → IsClosing (w.sockets id)
      → (run_all handlers from_utf8 servers id (replicate n closing) w).topics ≡ w.topics
  run_all-topics zero w h = refl
  run_all-topics (suc n) w h =
      run_all-topics n _ (run-IsClosing handlers from_utf8 servers id closing w refl)
      ∙ run-topics w h

  execute_message-throws :
      (payload : List ℕ) (w : World S)
      → handlers.on_close (close_code_of payload) (Endpoint.new (w.sockets id).session_store) ≡ none
      → (w.sockets id).closing ≡ false
      → (execute_message handlers from_utf8 servers id (8, payload) w).topics ≡ w.topics
  unfolding execute_message receive close_once finish
  execute_message-throws payload w called first = rw (first, called)

  -- Where onClose() throws an exception when a socket is closed, the socket stays subscribed as it
  -- was, however often it is closed after that.
  pub run_all-throws :
      (payload : List ℕ) (n : ℕ) (w : World S)
      → handlers.on_close (close_code_of payload) (Endpoint.new (w.sockets id).session_store) ≡ none
      → (w.sockets id).closing ≡ false
      → (run_all handlers from_utf8 servers id
          (replicate n closing)
          (execute_message handlers from_utf8 servers id (8, payload) w)).topics
        ≡ w.topics
  run_all-throws payload n w called first =
      run_all-topics n _
        (execute_message-IsClosing handlers from_utf8 servers id (8, payload) w refl)
      ∙ execute_message-throws payload w called first
