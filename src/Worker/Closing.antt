-- ===== src/Worker/Closing.antt =====
-- The end of a WebSocket, for src/twebsocketworker.cpp and TAbstractWebSocket::sendClose(): how often
-- a close frame is sent, and how often onClose() is called.
use tf.Base.{
  ℕ, ◌+◌, ◌≤◌, ◌≡◌, refl, ap, ◌∙◌, true, false, List, [], ◌∷◌, ◌++◌, Option, arith, inl, inr,
  Bool-cases, if◌then◌else◌,
}
use tf.Base.Text.{Text}
use tf.Endpoint.{Endpoint, Handlers}
use tf.Worker.Sockets as Sockets
use tf.Worker.Sockets.{Socket, Output}
use tf.Worker.Loop.{World}
use tf.Worker.Stable.{Stable, is_close}
use tf.Worker.Keeping.{run-Holds, run_all-Holds, execute_message-Holds}
use tf.Worker.{
  Mode, opening, closing, receiving, run, run_all, execute_opening, execute_closing,
  execute_message, execute_messages, close_once, receive,
}

-- How many close frames an output has.
abbrev pub closes : List Output → ℕ
closes [] = 0
closes (o ∷ os) = (if is_close o then 1 else 0) + closes os

closes-put :
    (o : Output) (os : List Output)
    → closes (os ++ o ∷ []) ≡ closes os + (if is_close o then 1 else 0)
closes-put o [] = omega arith
closes-put o (x ∷ os) = omega (arith, closes-put o os)

-- A socket has sent a close frame at most once, and not before its flag is set.
abbrev pub IsOrderly : {S : Type 0} → Socket S → Type 0
IsOrderly s = closes s.output ≤ (if s.close_sent then 1 else 0)

module _ {S : Type 0} where
  put-IsOrderly :
      (o : Output) (s : Socket S) → is_close o ≡ false → IsOrderly s → IsOrderly (Sockets.put o s)
  put-IsOrderly o s e h = ground (arith, closes-put o s.output)

  send_close-IsOrderly :
      (code : ℕ) (s : Socket S) → IsOrderly s → IsOrderly (Sockets.send_close code s)
  unfolding Sockets.send_close
  send_close-IsOrderly code s h = elim (Bool-cases s.close_sent) [
    | inl e ↦ ground arith
    | inr e ↦ ground (arith, closes-put (Output.close code) s.output)
  ]

  IsOrderly-Stable : Stable {S = S} IsOrderly
  IsOrderly-Stable = record {
    keep_put = put-IsOrderly;
    keep_close = send_close-IsOrderly;
    keep_timer = λ t s h. h;
    keep_session = λ c s h. h;
    keep_closing = λ s h. h;
    keep_closed = λ s h. ground arith;
  }

  abbrev pub IsClosing : Socket S → Type 0
  IsClosing s = s.closing ≡ true

  send_close-IsClosing :
      (code : ℕ) (s : Socket S) → IsClosing s → IsClosing (Sockets.send_close code s)
  unfolding Sockets.send_close
  send_close-IsClosing code s h = ground arith

  pub IsClosing-Stable : Stable IsClosing
  IsClosing-Stable = record {
    keep_put = λ o s e h. h;
    keep_close = send_close-IsClosing;
    keep_timer = λ t s h. h;
    keep_session = λ c s h. h;
    keep_closing = λ s h. refl;
    keep_closed = λ s h. refl;
  }

  module _ {H : Type 0} (handlers : Handlers H S) (from_utf8 : List ℕ → Text) where
    -- However the handlers are written, no socket, that of the workers or another one, is sent a
    -- second close frame by any sequence of workers.
    pub closes-run_all :
        (servers id k : ℕ) (modes : List (Mode H)) (w : World S)
        → IsOrderly (w.sockets k)
        → closes ((run_all handlers from_utf8 servers id modes w).sockets k).output ≤ 1
    closes-run_all servers id k modes w h =
        let kept : IsOrderly ((run_all handlers from_utf8 servers id modes w).sockets k) =
          run_all-Holds IsOrderly k IsOrderly-Stable handlers from_utf8 servers id modes w h in
        ground arith

    -- A closing handler put in place of another one.
    abbrev pub with_on_close : (ℕ → Endpoint S → Option (Endpoint S)) → Handlers H S
    with_on_close f = record handlers { on_close = f }

    module _ (f : ℕ → Endpoint S → Option (Endpoint S)) (servers id : ℕ) where
      execute_message-with_on_close :
          (m : ℕ × List ℕ) (w : World S)
          → IsClosing (w.sockets id)
          → execute_message handlers from_utf8 servers id m w
            ≡ execute_message (with_on_close f) from_utf8 servers id m w
      unfolding execute_message receive close_once
      execute_message-with_on_close m w h = rw h

      execute_messages-with_on_close :
          (ms : List (ℕ × List ℕ)) (w : World S)
          → IsClosing (w.sockets id)
          → execute_messages handlers from_utf8 servers id ms w
            ≡ execute_messages (with_on_close f) from_utf8 servers id ms w
      unfolding execute_messages
      execute_messages-with_on_close [] w h = refl
      execute_messages-with_on_close (m ∷ ms) w h =
          execute_messages-with_on_close ms _ (
            execute_message-Holds IsClosing id IsClosing-Stable handlers from_utf8 servers id m w h)
          ∙ ap (execute_messages (with_on_close f) from_utf8 servers id ms)
              (execute_message-with_on_close m w h)

      run-with_on_close :
          (mode : Mode H) (w : World S)
          → IsClosing (w.sockets id)
          → run handlers from_utf8 servers id mode w
            ≡ run (with_on_close f) from_utf8 servers id mode w
      unfolding run execute_opening execute_closing close_once
      run-with_on_close (opening session) w h = refl
      run-with_on_close closing w h = rw h
      run-with_on_close (receiving payloads) w h = execute_messages-with_on_close payloads w h

      pub run_all-with_on_close :
          (modes : List (Mode H)) (w : World S)
          → IsClosing (w.sockets id)
          → run_all handlers from_utf8 servers id modes w
            ≡ run_all (with_on_close f) from_utf8 servers id modes w
      run_all-with_on_close [] w h = refl
      run_all-with_on_close (mode ∷ modes) w h =
          run_all-with_on_close modes _
            (run-Holds IsClosing id IsClosing-Stable handlers from_utf8 servers id mode w h)
          ∙ ap (run_all (with_on_close f) from_utf8 servers id modes) (run-with_on_close mode w h)
