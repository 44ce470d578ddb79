-- ===== src/Worker/Loop.antt =====
-- src/twebsocketworker.cpp: the loop of execute() over the tasks of an endpoint, and what it changes.
use tf.Base.{ℕ, Bool, true, false, List, [], ◌∷◌, ◌++◌, Option, none, some, if◌then◌else◌, ◌==◌}
use tf.Base.Text.{Text}
use tf.Endpoint.{Endpoint}
use tf.Endpoint.Tasks.{
  Task, open_success, open_error, send_text, send_binary, send_close, send_ping, send_pong,
  send_text_to, send_binary_to, send_close_to, subscribe, unsubscribe, unsubscribe_from_all,
  publish_text, publish_binary, start_keep_alive, stop_keep_alive, http_send,
}
use tf.Publisher as Publisher
use tf.Publisher.{Topics, Sending}
use tf.Worker.Sockets as Sockets
use tf.Worker.Sockets.{Socket, Output}

pub data Transaction : Type 0 where
  commit : Transaction
  rollback : Transaction

-- What the workers of a process share: the sockets by their numbers, and those that
-- searchWebSocket() finds; the publisher, what it hands to the slots of sockets and what it sends
-- over the bus; the sockets over HTTP that are open and what is sent there; and the ends of
-- transactions.
pub record World (S : Type 0) : Type 0 where
  pub sockets : ℕ → Socket S
  pub registered : ℕ → Bool
  pub topics : Topics
  pub delivered : List (ℕ × Sending)
  pub on_bus : List (Text × Sending)
  pub http_open : ℕ → Bool
  pub http_sent : List (ℕ × Text)
  pub transactions : List Transaction

module _ {S : Type 0} where
  abbrev pub change : ℕ → (Socket S → Socket S) → World S → World S
  change id f w = record w { sockets = λ k. if k == id then f (w.sockets k) else w.sockets k }

  -- searchWebSocket(sid) and a call on what it finds.
  unfoldable pub change_found : ℕ → (Socket S → Socket S) → World S → World S
  change_found sid f w = if w.registered sid then change sid f w else w

  abbrev pub disconnect : Socket S → Socket S
  disconnect s = Sockets.disconnect (record s { closing = true; close_sent = true })

  -- A socket that has received and sent a close frame is disconnected.
  abbrev pub is_closed : Socket S → Bool
  is_closed s = if s.closing then s.close_sent else false

  unfoldable pub publish : ℕ → ℕ → Text → Sending → World S → World S
  publish servers id topic message w =
      let result = Publisher.publish servers topic message (some id) w.topics in
      record w {
        delivered = w.delivered ++ result.1;
        on_bus = if result.0 then w.on_bus ++ (topic, message) ∷ [] else w.on_bus;
      }

  abbrev pub http_send_to : ℕ → Text → World S → World S
  http_send_to sock d w =
      if w.http_open sock then record w { http_sent = w.http_sent ++ (sock, d) ∷ [] } else w

  -- One round of the loop over the tasks, with sendTask before and after: `none` is the jump to
  -- open_error.
  unfoldable pub run_task : ℕ → ℕ → Task → World S × Bool → World S × Option Bool
  run_task servers id open_success (w, sent) =
      (change id Sockets.send_handshake_response w, some sent)
  run_task servers id open_error (w, sent) = (change id disconnect w, none)
  run_task servers id (send_text t) (w, sent) = (change id (Sockets.send_text t) w, some true)
  run_task servers id (send_binary b) (w, sent) = (change id (Sockets.send_binary b) w, some true)
  run_task servers id (send_close code) (w, sent) =
      if is_closed (w.sockets id)
      then (change id Sockets.disconnect w, some sent)
      else (change id (Sockets.send_close code) w, some true)
  run_task servers id (send_ping b) (w, sent) = (change id (Sockets.send_ping b) w, some true)
  run_task servers id (send_pong b) (w, sent) = (change id (Sockets.send_pong b) w, some true)
  run_task servers id (send_text_to sid t) (w, sent) =
      (change_found sid (Sockets.send_text t) w, some sent)
  run_task servers id (send_binary_to sid b) (w, sent) =
      (change_found sid (Sockets.send_binary b) w, some sent)
  run_task servers id (send_close_to sid code) (w, sent) =
      (change_found sid (Sockets.send_close code) w, some sent)
  run_task servers id (subscribe topic local) (w, sent) =
      (record w { topics = Publisher.subscribe topic local (some id) w.topics }, some sent)
  run_task servers id (unsubscribe topic) (w, sent) =
      (record w { topics = Publisher.unsubscribe topic (some id) w.topics }, some sent)
  run_task servers id unsubscribe_from_all (w, sent) =
      (record w { topics = Publisher.unsubscribe_from_all (some id) w.topics }, some sent)
  run_task servers id (publish_text topic t) (w, sent) =
      (publish servers id topic (Sending.text t) w, some sent)
  run_task servers id (publish_binary topic b) (w, sent) =
      (publish servers id topic (Sending.binary b) w, some sent)
  run_task servers id (start_keep_alive interval) (w, sent) =
      (change id (Sockets.start_keep_alive interval) w, some sent)
  run_task servers id stop_keep_alive (w, sent) = (change id Sockets.stop_keep_alive w, some sent)
  run_task servers id (http_send sock d) (w, sent) = (http_send_to sock d w, some sent)

  abbrev pub next :
      (World S × Bool → World S × Option Bool) → World S × Option Bool → World S × Option Bool
  next rest (w, none) = (w, none)
  next rest (w, some sent) = rest (w, sent)

  unfoldable pub run_tasks : ℕ → ℕ → List Task → World S × Bool → World S × Option Bool
  run_tasks servers id [] (w, sent) = (w, some sent)
  run_tasks servers id (task ∷ tasks) s =
      next (λ s'. run_tasks servers id tasks s') (run_task servers id task s)

  -- `if (!sendTask) _socket->renewKeepAlive()`, which the jump skips.
  abbrev pub renewed : ℕ → World S × Option Bool → World S
  renewed id (w, none) = w
  renewed id (w, some sent) = if sent then w else change id Sockets.renew_keep_alive w

  abbrev pub end_transactions : Bool → World S → World S
  end_transactions rolled w = record w {
    transactions = w.transactions ++ (if rolled then rollback else commit) ∷ [];
  }

  -- What execute() does with the endpoint after its handler; an exception skips all of it.
  unfoldable pub finish : ℕ → ℕ → Option (Endpoint S) → World S → World S
  finish servers id none w = w
  finish servers id (some e) w =
      let ready = change id (λ s. record s { session_store = e.session_store }) w in
      end_transactions e.rollback (renewed id (run_tasks servers id e.task_list (ready, false)))
