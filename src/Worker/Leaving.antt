-- ===== src/Worker/Leaving.antt =====
-- What the workers of src/twebsocketworker.cpp do when the WebSocket is closed, and after that.
use tf.Base.{
  ℕ, ◌≡◌, refl, ap, ◌∙◌, Bool, true, false, List, [], ◌∷◌, ◌++◌, Option, none, some, arith, inl,
  inr, Bool-cases, ◌==◌, ==_refl, any,
}
use tf.Base.Text.{Text}
use tf.Endpoint.{Endpoint, Handlers}
use tf.Endpoint.Tasks.{Task}
use tf.Publisher as Publisher
use tf.Publisher.{Topics}
use tf.Publisher.Flags.{flag_of}
use tf.Worker.Loop.{World, change, next, run_task, run_tasks, is_closed}
use tf.Worker.Keeping.{execute_messages-Holds}
use tf.Worker.Stable.{finish-Holds}
use tf.Worker.Closing.{IsClosing, IsClosing-Stable, with_on_close, run_all-with_on_close}
use tf.Worker.{
  Mode, opening, closing, receiving, run, run_all, execute_closing, execute_message,
  execute_messages,
}

-- A worker that closes: one in that mode, or one with a close frame among its messages.
abbrev pub is_closing_mode : {H : Type 0} → Mode H → Bool
is_closing_mode (opening session) = false
is_closing_mode closing = true
is_closing_mode (receiving payloads) = any (λ m. m.0 == 8) payloads

module _ {H S : Type 0} (handlers : Handlers H S) (from_utf8 : List ℕ → Text) (servers id : ℕ) where
  pub closed :
      (w : World S) → IsClosing ((change id (λ s. record s { closing = true }) w).sockets id)
  closed w = rw (==_refl id)

  pub execute_message-IsClosing :
      (m : ℕ × List ℕ) (w : World S)
      → (m.0 == 8) ≡ true
      → IsClosing ((execute_message handlers from_utf8 servers id m w).sockets id)
  unfolding execute_message
  execute_message-IsClosing m w e =
      finish-Holds IsClosing id IsClosing-Stable servers id _ _ (rw e (closed w))

  execute_messages-IsClosing :
      (ms : List (ℕ × List ℕ)) (w : World S)
      → any (λ m. m.0 == 8) ms ≡ true
      → IsClosing ((execute_messages handlers from_utf8 servers id ms w).sockets id)
  unfolding execute_messages
  execute_messages-IsClosing [] w e = cc
  execute_messages-IsClosing (m ∷ ms) w e = elim (Bool-cases (m.0 == 8)) [
    | inl now ↦
        execute_messages-Holds IsClosing id IsClosing-Stable handlers from_utf8 servers id ms _
          (execute_message-IsClosing m w now)
    | inr later ↦ execute_messages-IsClosing ms _ (ground arith)
  ]

  pub run-IsClosing :
      (mode : Mode H) (w : World S)
      → is_closing_mode mode ≡ true
      → IsClosing ((run handlers from_utf8 servers id mode w).sockets id)
  unfolding run execute_closing
  run-IsClosing (opening session) w e = cc
  run-IsClosing closing w e = finish-Holds IsClosing id IsClosing-Stable servers id _ _ (closed w)
  run-IsClosing (receiving payloads) w e = execute_messages-IsClosing payloads w e

  -- After a worker that closes the socket, onClose() is not called by any later worker of it: all
  -- that these do is the same whatever is put in its place.
  pub run_all-after_close :
      (f : ℕ → Endpoint S → Option (Endpoint S)) (mode : Mode H) (modes : List (Mode H))
      (w : World S)
      → is_closing_mode mode ≡ true
      → run_all handlers from_utf8 servers id (mode ∷ modes) w
        ≡ run_all
            (with_on_close handlers from_utf8 f)
            from_utf8
            servers
            id
            modes
            (run handlers from_utf8 servers id mode w)
  run_all-after_close f mode modes w e =
      run_all-with_on_close handlers from_utf8 f servers id modes _ (run-IsClosing mode w e)

abbrev pub is_open_error : Task → Bool
is_open_error Task.open_error = true
is_open_error _ = false

value_of-remove_subscriber :
    (r : ℕ) (subs : List (ℕ × Bool))
    → Publisher.value_of r (Publisher.remove_subscriber r subs) ≡ none
unfolding Publisher.value_of Publisher.remove_subscriber
value_of-remove_subscriber r [] = refl
value_of-remove_subscriber r ((s, l) ∷ subs) = ground (arith, value_of-remove_subscriber r subs)

flag_of-unsubscribe_from_all :
    (topic : Text) (r : ℕ) (p : Topics)
    → flag_of topic r (Publisher.unsubscribe_from_all (some r) p) ≡ none
unfolding flag_of Publisher.unsubscribe_from_all Publisher.get Publisher.unsubscribe_pub
flag_of-unsubscribe_from_all topic r [] = refl
flag_of-unsubscribe_from_all topic r ((t, q) ∷ p) =
    ground
      (arith, flag_of-unsubscribe_from_all topic r p, value_of-remove_subscriber r q.subscribers)

module _ {S : Type 0} (servers id : ℕ) where
  abbrev jumped : World S × Option Bool → Bool
  jumped (w, none) = true
  jumped (w, some sent) = false

  run_task-jumped :
      (x : Task) (w : World S) (sent : Bool)
      → is_open_error x ≡ false
      → jumped (run_task servers id x (w, sent)) ≡ false
  unfolding run_task
  run_task-jumped Task.open_error w sent e = cc
  run_task-jumped (Task.send_close code) w sent e = elim (Bool-cases (is_closed (w.sockets id))) [
    | inl c ↦ rw c
    | inr c ↦ rw c
  ]
  run_task-jumped _ w sent e = refl

  -- The flag of the socket in a topic, after the tasks.
  abbrev flag_after : Text → World S × Option Bool → Option Bool
  flag_after topic r = flag_of topic id r.0.topics

  next-flag_after :
      (topic : Text) (f : World S × Bool → World S × Option Bool) (r : World S × Option Bool)
      → jumped r ≡ false
      → ((w : World S) (sent : Bool) → flag_after topic (f (w, sent)) ≡ none)
      → flag_after topic (next f r) ≡ none
  next-flag_after topic f (w, none) e h = cc
  next-flag_after topic f (w, some sent) e h = h w sent

  -- Whatever the tasks before, the socket is in no topic after UnsubscribeFromAll and a task that
  -- leaves the topics alone.
  pub leaves :
      (topic : Text) (ys : List Task)
      → ((w : World S) (sent : Bool) → (run_tasks servers id ys (w, sent)).0.topics ≡ w.topics)
      → (xs : List Task) (w : World S) (sent : Bool) → any is_open_error xs ≡ false
      → flag_after topic (run_tasks servers id (xs ++ Task.unsubscribe_from_all ∷ ys) (w, sent))
        ≡ none
  unfolding run_tasks run_task
  leaves topic ys same [] w sent e =
      ap (λ p. flag_of topic id p) (same _ sent) ∙ flag_of-unsubscribe_from_all topic id w.topics
  leaves topic ys same (x ∷ xs) w sent e =
      let first : is_open_error x ≡ false = ground arith in
      let rest : any is_open_error xs ≡ false = ground arith in
      next-flag_after topic (λ s. run_tasks servers id (xs ++ Task.unsubscribe_from_all ∷ ys) s)
        (run_task servers id x (w, sent)) (run_task-jumped x w sent first)
        (λ w' sent'. leaves topic ys same xs w' sent' rest)
