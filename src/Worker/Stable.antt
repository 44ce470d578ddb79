-- ===== src/Worker/Stable.antt =====
-- What every step of a worker keeps of a socket: a rule that proves a property of the socket of any
-- number, whatever the handlers of src/twebsocketworker.cpp queue.
use tf.Base.{
  ℕ, ◌*◌, ◌≡◌, refl, Bool, true, false, List, [], ◌∷◌, Option, none, some, ◌==◌, inl, inr,
  Bool-cases,
}
use tf.Base.Text.{Text}
use tf.Endpoint.{Endpoint}
use tf.Endpoint.Tasks.{
  Task, open_success, open_error, send_text, send_binary, send_close, send_ping, send_pong,
  send_text_to, send_binary_to, send_close_to, subscribe, unsubscribe, unsubscribe_from_all,
  publish_text, publish_binary, start_keep_alive, stop_keep_alive, http_send,
}
use tf.Publisher as Publisher
use tf.Worker.Sockets as Sockets
use tf.Worker.Sockets.{Socket, Output, Timer}
use tf.Worker.Loop.{
  World, change, change_found, publish, http_send_to, run_task, run_tasks, next, renewed, finish,
  disconnect, is_closed,
}

abbrev pub is_close : Output → Bool
is_close (Output.close code) = true
is_close _ = false

-- A property that no operation of a worker takes from a socket.
pub record Stable {S : Type 0} (P : Socket S → Type 0) : Type 0 where
  pub keep_put : (o : Output) (s : Socket S) → is_close o ≡ false → P s → P (Sockets.put o s)
  pub keep_close : (code : ℕ) (s : Socket S) → P s → P (Sockets.send_close code s)
  pub keep_timer : (t : Option Timer) (s : Socket S) → P s → P (record s { keep_alive_timer = t })
  pub keep_session : (c : S) (s : Socket S) → P s → P (record s { session_store = c })
  pub keep_closing : (s : Socket S) → P s → P (record s { closing = true })
  pub keep_closed : (s : Socket S) → P s → P (record s { closing = true; close_sent = true })

module _ {S : Type 0} (P : Socket S → Type 0) (k : ℕ) where
  abbrev pub Holds : World S → Type 0
  Holds w = P (w.sockets k)

  pub change-Holds :
      (id : ℕ) (f : Socket S → Socket S) (w : World S)
      → ((s : Socket S) → P s → P (f s))
      → Holds w
      → Holds (change id f w)
  change-Holds id f w keep h = elim (Bool-cases (k == id)) [
    | inl e ↦ rw e (keep (w.sockets k) h)
    | inr e ↦ rw e h
  ]

  change_found-Holds :
      (sid : ℕ) (f : Socket S → Socket S) (w : World S)
      → ((s : Socket S) → P s → P (f s))
      → Holds w
      → Holds (change_found sid f w)
  unfolding change_found
  change_found-Holds sid f w keep h = elim (Bool-cases (w.registered sid)) [
    | inl e ↦ rw e (change-Holds sid f w keep h)
    | inr e ↦ rw e h
  ]

  publish-Holds :
      (servers id : ℕ) (topic : Text) (m : Publisher.Sending) (w : World S)
      → Holds w
      → Holds (publish servers id topic m w)
  unfolding publish
  publish-Holds servers id topic m w h = h

  http_send_to-Holds : (sock : ℕ) (d : Text) (w : World S) → Holds w → Holds (http_send_to sock d w)
  http_send_to-Holds sock d w h = elim (Bool-cases (w.http_open sock)) [
    | inl e ↦ rw e h
    | inr e ↦ rw e h
  ]

  module _ (stable : Stable P) where
    put-Holds :
        (id : ℕ) (o : Output) (w : World S)
        → is_close o ≡ false
        → Holds w
        → Holds (change id (Sockets.put o) w)
    put-Holds id o w e = change-Holds id _ w (λ s. stable.keep_put o s e)

    send_text-P : (t : Text) (s : Socket S) → P s → P (Sockets.send_text t s)
    send_text-P t s h = stable.keep_timer _ _ (stable.keep_put (Output.text t) s refl h)

    send_binary-P : (b : Text) (s : Socket S) → P s → P (Sockets.send_binary b s)
    send_binary-P b s h = stable.keep_timer _ _ (stable.keep_put (Output.binary b) s refl h)

    disconnected-P : (s : Socket S) → P s → P (Sockets.disconnect s)
    disconnected-P s h = stable.keep_timer _ _ (stable.keep_put Output.disconnected s refl h)

    disconnect-P : (s : Socket S) → P s → P (disconnect s)
    disconnect-P s h = disconnected-P _ (stable.keep_closed s h)

    timer-Holds :
        (id : ℕ) (g : Option Timer → Option Timer) (w : World S)
        → Holds w
        → Holds (change id (λ s. record s { keep_alive_timer = g s.keep_alive_timer }) w)
    timer-Holds id g w h = change-Holds id _ w (λ s. stable.keep_timer (g s.keep_alive_timer) s) h

    answer_close-Holds :
        (servers id code : ℕ) (w : World S) (sent : Bool)
        → Holds w
        → Holds (run_task servers id (send_close code) (w, sent)).0
    unfolding run_task
    answer_close-Holds servers id code w sent h = elim (Bool-cases (is_closed (w.sockets id))) [
      | inl e ↦ rw e (change-Holds id _ w disconnected-P h)
      | inr e ↦ rw e (change-Holds id _ w (stable.keep_close code) h)
    ]

    pub run_task-Holds :
        (servers id : ℕ) (task : Task) (w : World S) (sent : Bool)
        → Holds w
        → Holds (run_task servers id task (w, sent)).0
    unfolding run_task
    run_task-Holds servers id open_success w sent h = put-Holds id Output.handshake w refl h
    run_task-Holds servers id open_error w sent h = change-Holds id disconnect w disconnect-P h
    run_task-Holds servers id (send_text t) w sent h = change-Holds id _ w (send_text-P t) h
    run_task-Holds servers id (send_binary b) w sent h = change-Holds id _ w (send_binary-P b) h
    run_task-Holds servers id (send_close code) w sent h =
        answer_close-Holds servers id code w sent h
    run_task-Holds servers id (send_ping b) w sent h = put-Holds id (Output.ping b) w refl h
    run_task-Holds servers id (send_pong b) w sent h = put-Holds id (Output.pong b) w refl h
    run_task-Holds servers id (send_text_to sid t) w sent h =
        change_found-Holds sid _ w (send_text-P t) h
    run_task-Holds servers id (send_binary_to sid b) w sent h =
        change_found-Holds sid _ w (send_binary-P b) h
    run_task-Holds servers id (send_close_to sid code) w sent h =
        change_found-Holds sid _ w (stable.keep_close code) h
    run_task-Holds servers id (subscribe topic local) w sent h = h
    run_task-Holds servers id (unsubscribe topic) w sent h = h
    run_task-Holds servers id unsubscribe_from_all w sent h = h
    run_task-Holds servers id (publish_text topic t) w sent h = publish-Holds servers id topic _ w h
    run_task-Holds servers id (publish_binary topic b) w sent h =
        publish-Holds servers id topic _ w h
    run_task-Holds servers id (start_keep_alive interval) w sent h =
        timer-Holds id
          (λ t. some (Sockets.start (record (Sockets.made t) { interval = interval * 1000 }))) w h
    run_task-Holds servers id stop_keep_alive w sent h =
        timer-Holds id (Sockets.on_timer Sockets.stop) w h
    run_task-Holds servers id (http_send sock d) w sent h = http_send_to-Holds sock d w h

    next-Holds :
        (rest : World S × Bool → World S × Option Bool) (r : World S × Option Bool)
        → ((w : World S) (sent : Bool) → Holds w → Holds (rest (w, sent)).0)
        → Holds r.0
        → Holds (next rest r).0
    next-Holds rest (w, none) keep h = h
    next-Holds rest (w, some sent) keep h = keep w sent h

    pub run_tasks-Holds :
        (servers id : ℕ) (tasks : List Task) (w : World S) (sent : Bool)
        → Holds w
        → Holds (run_tasks servers id tasks (w, sent)).0
    unfolding run_tasks
    run_tasks-Holds servers id [] w sent h = h
    run_tasks-Holds servers id (task ∷ tasks) w sent h =
        next-Holds (λ s. run_tasks servers id tasks s) (run_task servers id task (w, sent))
          (λ w' sent'. run_tasks-Holds servers id tasks w' sent')
          (run_task-Holds servers id task w sent h)

    pub renewed-Holds : (id : ℕ) (r : World S × Option Bool) → Holds r.0 → Holds (renewed id r)
    renewed-Holds id (w, none) h = h
    renewed-Holds id (w, some true) h = h
    renewed-Holds id (w, some false) h = timer-Holds id (Sockets.on_timer Sockets.start) w h

    pub finish-Holds :
        (servers id : ℕ) (e : Option (Endpoint S)) (w : World S)
        → Holds w
        → Holds (finish servers id e w)
    unfolding finish
    finish-Holds servers id none w h = h
    finish-Holds servers id (some e) w h =
        renewed-Holds id (run_tasks servers id e.task_list (_, false)) (
          run_tasks-Holds servers id e.task_list _ false
            (change-Holds id _ w (λ s. stable.keep_session e.session_store s) h))

    pub set_closing-Holds :
        (id : ℕ) (w : World S) → Holds w → Holds (change id (λ s. record s { closing = true }) w)
    set_closing-Holds id w h = change-Holds id _ w stable.keep_closing h
