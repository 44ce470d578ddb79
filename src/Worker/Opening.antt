-- ===== src/Worker/Opening.antt =====
-- How a worker of src/twebsocketworker.cpp opens a WebSocket, and how it stops the keep-alive timer.
use tf.Base.{
  ℕ, ◌<◌, ◌≡◌, refl, sym, ap, ◌∙◌, Bool, true, false, List, [], ◌∷◌, ◌++◌, some, inl, inr,
  Bool-cases, ◌==◌, ==_refl, append_assoc, append-nil, ltb, lt→ltb, subst,
}
use tf.Base.Text.{Text}
use tf.Endpoint as Endpoint
use tf.Endpoint.{Endpoint, Handlers}
use tf.Endpoint.Tasks.{Task}
use tf.Worker.Sockets as Sockets
use tf.Worker.Sockets.{Socket, Output, Timer}
use tf.Worker.Loop.{World, change, finish, run_task, run_tasks, renewed}
use tf.Worker.Stable.{Stable, run_tasks-Holds, renewed-Holds}
use tf.Worker.{execute_opening, execute_message, receive}

-- An output that has been written stays where it is.
abbrev pub StartsWith : {S : Type 0} → List Output → Socket S → Type 0
StartsWith os s = (rest : List Output) × (s.output ≡ os ++ rest)

module _ {S : Type 0} (os : List Output) where
  put-StartsWith : (o : Output) (s : Socket S) → StartsWith os s → StartsWith os (Sockets.put o s)
  put-StartsWith o s (rest, e) =
      (rest ++ o ∷ [], ap (λ xs. xs ++ o ∷ []) e ∙ append_assoc os rest (o ∷ []))

  send_close-StartsWith :
      (code : ℕ) (s : Socket S) → StartsWith os s → StartsWith os (Sockets.send_close code s)
  unfolding Sockets.send_close
  send_close-StartsWith code s h = elim (Bool-cases s.close_sent) [
    | inl e ↦ rw e h
    | inr e ↦ rw e (put-StartsWith (Output.close code) s h)
  ]

  StartsWith-Stable : Stable {S = S} (StartsWith os)
  StartsWith-Stable = record {
    keep_put = λ o s e h. put-StartsWith o s h;
    keep_close = send_close-StartsWith;
    keep_timer = λ t s h. h;
    keep_session = λ c s h. h;
    keep_closing = λ s h. h;
    keep_closed = λ s h. h;
  }

module _ {H S : Type 0} (handlers : Handlers H S) (from_utf8 : List ℕ → Text) (servers id : ℕ) where
  opens :
      (tasks : List Task) (w : World S)
      → StartsWith
          ((w.sockets id).output ++ Output.handshake ∷ [])
          ((renewed id (run_tasks servers id (Task.open_success ∷ tasks) (w, false))).sockets id)
  unfolding run_tasks run_task
  opens tasks w =
      let os = (w.sockets id).output ++ Output.handshake ∷ [] in
      let w' = change id Sockets.send_handshake_response w in
      let first : StartsWith os (w'.sockets id) = rw (==_refl id) ([], sym (append-nil os)) in
      renewed-Holds (StartsWith os) id (StartsWith-Stable os) id
        (run_tasks servers id tasks (w', false))
        (run_tasks-Holds (StartsWith os) id (StartsWith-Stable os) servers id tasks w' false first)

  finish_opens :
      (tasks : List Task) (store : S) (rolled : Bool) (w : World S)
      → StartsWith ((w.sockets id).output ++ Output.handshake ∷ []) (
          (finish servers id
              (some (record {
                session_store = store;
                task_list = Task.open_success ∷ tasks;
                rollback = rolled;
              }))
              w).sockets
            id)
  unfolding finish
  finish_opens tasks store rolled w =
      let ready = change id (λ s. record s { session_store = store }) w in
      let same : (ready.sockets id).output ≡ (w.sockets id).output = rw (==_refl id) in
      subst
        (λ os. StartsWith (os ++ Output.handshake ∷ []) (
          (renewed id (run_tasks servers id (Task.open_success ∷ tasks) (ready, false))).sockets
            id))
        same (opens tasks ready)

  -- When onOpen() accepts a connection, the response to the handshake is the first that is written
  -- to the socket, before what the tasks of the handler write.
  pub execute_opening-accepts :
      (session : H) (w : World S) (e : Endpoint S)
      → handlers.on_open session (Endpoint.new (w.sockets id).session_store) ≡ some (true, e)
      → StartsWith
          ((w.sockets id).output ++ Output.handshake ∷ [])
          ((execute_opening handlers from_utf8 servers id session w).sockets id)
  unfolding execute_opening Endpoint.start_keep_alive
  execute_opening-accepts session w e called =
      elim (Bool-cases (ltb 0 handlers.keep_alive_interval)) [
        | inl p ↦ rw (called, p) (finish_opens _ e.session_store e.rollback w)
        | inr p ↦ rw (called, p) (finish_opens _ e.session_store e.rollback w)
      ]

  -- When onOpen() refuses it, the socket is disconnected with both flags set, and nothing that the
  -- handler has queued is done: no message is sent or published, and no topic is changed.
  pub execute_opening-refuses :
      (session : H) (w : World S) (e : Endpoint S)
      → handlers.on_open session (Endpoint.new (w.sockets id).session_store) ≡ some (false, e)
      → let w' = execute_opening handlers from_utf8 servers id session w in
        ((w'.sockets id).output ≡ (w.sockets id).output ++ Output.disconnected ∷ [])
        × ((w'.sockets id).closing ≡ true)
        × ((w'.sockets id).close_sent ≡ true)
        × (w'.topics ≡ w.topics)
        × (w'.delivered ≡ w.delivered)
        × (w'.on_bus ≡ w.on_bus)
        × (w'.http_sent ≡ w.http_sent)
        × ((k : ℕ) → (k == id) ≡ false → w'.sockets k ≡ w.sockets k)
  unfolding execute_opening finish run_tasks run_task
  execute_opening-refuses session w e called =
      rw (called, ==_refl id) (refl, refl, refl, refl, refl, refl, refl, λ k other. rw other)

-- A keep-alive timer that an endpoint stops in answer to a text runs on: the worker, which has
-- sent nothing, starts it again.
pub execute_message-stop_keep_alive :
    {H S : Type 0} (handlers : Handlers H S) (from_utf8 : List ℕ → Text) (servers id : ℕ)
    (payload : List ℕ) (t : Timer) (w : World S)
    → handlers.on_text_received (from_utf8 payload) (Endpoint.new (w.sockets id).session_store)
      ≡ some (Endpoint.start_keep_alive 0 (Endpoint.new (w.sockets id).session_store))
    → (w.sockets id).keep_alive_timer ≡ some t
    → 0 < t.interval
    → ((execute_message handlers from_utf8 servers id (1, payload) w).sockets id).keep_alive_timer
      ≡ some (record t { running = true })
unfolding execute_message receive finish run_tasks run_task Endpoint.start_keep_alive
execute_message-stop_keep_alive handlers from_utf8 servers id payload t w called timer positive =
    rw (called, ==_refl id, timer, lt→ltb _ _ positive)
