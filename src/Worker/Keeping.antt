-- ===== src/Worker/Keeping.antt =====
-- The rule of Worker/Stable for whole workers of src/twebsocketworker.cpp, in all their modes.
use tf.Base.{ℕ, Bool, true, false, List, [], ◌∷◌, ◌==◌, if◌then◌else◌}
use tf.Base.Text.{Text}
use tf.Endpoint.{Handlers}
use tf.Worker.Sockets.{Socket}
use tf.Worker.Loop.{World, change}
use tf.Worker.Stable.{Stable, Holds, finish-Holds, set_closing-Holds}
use tf.Worker.{
  Mode, opening, closing, receiving, run, run_all, execute_opening, execute_closing,
  execute_message, execute_messages,
}

module _ {H S : Type 0} (P : Socket S → Type 0) (k : ℕ) (stable : Stable P)
    (handlers : Handlers H S) (from_utf8 : List ℕ → Text) where
  pub closes-Holds :
      (id : ℕ) (b : Bool) (w : World S)
      → Holds P k w
      → Holds P k (if b then change id (λ s. record s { closing = true }) w else w)
  closes-Holds id true w h = set_closing-Holds P k stable id w h
  closes-Holds id false w h = h

  pub execute_message-Holds :
      (servers id : ℕ) (m : ℕ × List ℕ) (w : World S)
      → Holds P k w
      → Holds P k (execute_message handlers from_utf8 servers id m w)
  unfolding execute_message
  execute_message-Holds servers id m w h =
      finish-Holds P k stable servers id _ _ (closes-Holds id (m.0 == 8) w h)

  pub execute_messages-Holds :
      (servers id : ℕ) (ms : List (ℕ × List ℕ)) (w : World S)
      → Holds P k w
      → Holds P k (execute_messages handlers from_utf8 servers id ms w)
  unfolding execute_messages
  execute_messages-Holds servers id [] w h = h
  execute_messages-Holds servers id (m ∷ ms) w h =
      execute_messages-Holds servers id ms _ (execute_message-Holds servers id m w h)

  pub run-Holds :
      (servers id : ℕ) (mode : Mode H) (w : World S)
      → Holds P k w
      → Holds P k (run handlers from_utf8 servers id mode w)
  unfolding run execute_opening execute_closing
  run-Holds servers id (opening session) w h = finish-Holds P k stable servers id _ w h
  run-Holds servers id closing w h =
      finish-Holds P k stable servers id _ _ (set_closing-Holds P k stable id w h)
  run-Holds servers id (receiving payloads) w h = execute_messages-Holds servers id payloads w h

  pub run_all-Holds :
      (servers id : ℕ) (modes : List (Mode H)) (w : World S)
      → Holds P k w
      → Holds P k (run_all handlers from_utf8 servers id modes w)
  run_all-Holds servers id [] w h = h
  run_all-Holds servers id (mode ∷ modes) w h =
      run_all-Holds servers id modes _ (run-Holds servers id mode w h)
