-- ===== src/Tests/Workers.antt =====
-- Runs of the code of src/twebsocketworker.cpp.
use tf.Base.{ℕ, ◌≤◌, arith, ◌≡◌, refl, true, false, List, [], ◌∷◌, Option, none, some, ◌==◌}
use tf.Base.Text.{Text, codes}
use tf.Endpoint as Endpoint
use tf.Endpoint.{Endpoint, Handlers, base}
use tf.Publisher.{subscribe}
use tf.Publisher.Flags.{flag_of}
use tf.Worker.Sockets.{Socket, Output}
use tf.Worker.Loop.{World}
use tf.Worker.{Mode, opening, closing, receiving, run, run_all, execute_opening, execute_message}
use tf.Worker.Closing.{closes, closes-run_all, with_on_close}
use tf.Worker.Leaving.{run_all-after_close}
use tf.Worker.Answering.{execute_message-leaves, execute_message-answers}
use tf.Worker.Opening.{execute_opening-refuses}

abbrev same : List ℕ → Text
same s = s

abbrev fresh : Socket ℕ
fresh = record {
  session_store = 7;
  closing = false;
  close_sent = false;
  keep_alive_timer = some (record { interval = 30000; running = true });
  output = [];
}

abbrev world : World ℕ
world = record {
  sockets = λ k. fresh;
  registered = λ k. k == 2;
  topics = subscribe (codes "chat") true (some 1) [];
  delivered = [];
  on_bus = [];
  http_open = λ k. false;
  http_sent = [];
  transactions = [];
}

-- An endpoint that subscribes on opening, echoes texts, and closes the socket itself on a binary.
abbrev echo : Handlers ℕ ℕ
echo = record (base ℕ ℕ) {
  on_open = λ session e. some (true, Endpoint.subscribe (codes "chat") true e);
  on_text_received = λ t e. some (Endpoint.send_text t e);
  on_binary_received = λ b e. some (Endpoint.close 1000 e);
}

abbrev events : List (Mode ℕ)
events =
    opening 0
    ∷ receiving ((1, codes "hi") ∷ (2, []) ∷ (2, []) ∷ (8, 3 ∷ 232 ∷ []) ∷ [])
    ∷ closing
    ∷ []

closes-run_all_example : closes ((run_all echo same 1 1 events world).sockets 1).output ≤ 1
closes-run_all_example = closes-run_all echo same 1 1 1 events world (omega arith)

abbrev ignores : ℕ → Endpoint ℕ → Option (Endpoint ℕ)
ignores code e = none

run_all-after_close_example :
    run_all echo same 1 1 (closing ∷ events) world
    ≡ run_all (with_on_close echo same ignores) same 1 1 events (run echo same 1 1 closing world)
run_all-after_close_example = run_all-after_close echo same 1 1 ignores closing events world refl

execute_message-leaves_example :
    flag_of (codes "chat") 1 (execute_message echo same 1 1 (8, 3 ∷ 232 ∷ []) world).topics ≡ none
unfolding base
execute_message-leaves_example =
    execute_message-leaves echo same 1 1 (3 ∷ 232 ∷ []) world (Endpoint.new 7) (codes "chat") refl
      refl refl

-- The socket has closed by itself before.
abbrev closed_world : World ℕ
closed_world = record world { sockets = λ k. record fresh { closing = true; close_sent = true } }

execute_message-answers_example :
    let s' = (execute_message echo same 1 1 (8, 3 ∷ 232 ∷ []) closed_world).sockets 1 in
    (s'.output ≡ Output.disconnected ∷ []) × (s'.closing ≡ true) × (s'.close_sent ≡ true)
unfolding base
execute_message-answers_example =
    execute_message-answers echo same 1 1 (3 ∷ 232 ∷ []) closed_world refl

abbrev thrower : Handlers ℕ ℕ
thrower = record echo { on_close = ignores }

-- An endpoint that greets before it refuses.
abbrev refuser : Handlers ℕ ℕ
refuser = record echo { on_open = λ session e. some (false, Endpoint.send_text (codes "no") e) }

execute_opening-refuses_example :
    let w' = execute_opening refuser same 1 1 0 world in
    ((w'.sockets 1).output ≡ Output.disconnected ∷ [])
    × ((w'.sockets 1).closing ≡ true)
    × ((w'.sockets 1).close_sent ≡ true)
    × (w'.topics ≡ world.topics)
    × (w'.delivered ≡ [])
    × (w'.on_bus ≡ [])
    × (w'.http_sent ≡ [])
    × ((k : ℕ) → (k == 1) ≡ false → w'.sockets k ≡ fresh)
execute_opening-refuses_example =
    execute_opening-refuses refuser same 1 1 0 world
      (Endpoint.send_text (codes "no") (Endpoint.new 7)) refl

-- An endpoint that wants no more pings.
abbrev quiet : Handlers ℕ ℕ
quiet = record echo { on_text_received = λ t e. some (Endpoint.start_keep_alive 0 e) }
