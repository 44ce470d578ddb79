-- ===== src/Worker/Sockets.antt =====
-- src/tabstractwebsocket.h and src/tabstractwebsocket.cpp: the state of a WebSocket that a worker
-- reads and writes, with the keep-alive timer of src/tbasictimer.cpp. What is written to the socket
-- is a list of outputs; WebSocket/Sending has the bytes of a frame.
use tf.Base.{
  ℕ, ◌*◌, Bool, true, false, ◌||◌, List, [], ◌∷◌, ◌++◌, Option, none, some, if◌then◌else◌, ltb,
}
use tf.Base.Text.{Text}

pub data Output : Type 0 where
  handshake : Output
  text : Text → Output
  binary : Text → Output
  ping : Text → Output
  pong : Text → Output
  close : ℕ → Output
  disconnected : Output

-- The interval in milliseconds, and whether the timer runs.
pub record Timer : Type 0 where
  pub interval : ℕ
  pub running : Bool

pub record Socket (S : Type 0) : Type 0 where
  pub session_store : S
  pub closing : Bool
  pub close_sent : Bool
  pub keep_alive_timer : Option Timer
  pub output : List Output

-- TBasicTimer::start()
abbrev pub start : Timer → Timer
start t = record t { running = ltb 0 t.interval || t.running }

-- TBasicTimer::stop()
abbrev pub stop : Timer → Timer
stop t = record t { running = false }

abbrev pub on_timer : (Timer → Timer) → Option Timer → Option Timer
on_timer f none = none
on_timer f (some t) = some (f t)

-- `if (!keepAliveTimer) keepAliveTimer = new TBasicTimer()`
abbrev pub made : Option Timer → Timer
made none = record { interval = 0; running = false }
made (some t) = t

module _ {S : Type 0} where
  -- writeRawData()
  abbrev pub put : Output → Socket S → Socket S
  put o s = record s { output = s.output ++ o ∷ [] }

  abbrev pub start_keep_alive : ℕ → Socket S → Socket S
  start_keep_alive interval s = record s {
    keep_alive_timer =
        some (start (record (made s.keep_alive_timer) { interval = interval * 1000 }));
  }

  abbrev pub stop_keep_alive : Socket S → Socket S
  stop_keep_alive s = record s { keep_alive_timer = on_timer stop s.keep_alive_timer }

  -- disconnect() of TWebSocket and of TEpollWebSocket
  abbrev pub disconnect : Socket S → Socket S
  disconnect s = stop_keep_alive (put Output.disconnected s)

  abbrev pub renew_keep_alive : Socket S → Socket S
  renew_keep_alive s = record s { keep_alive_timer = on_timer start s.keep_alive_timer }

  abbrev pub send_handshake_response : Socket S → Socket S
  send_handshake_response = put Output.handshake

  abbrev pub send_text : Text → Socket S → Socket S
  send_text message s = renew_keep_alive (put (Output.text message) s)

  abbrev pub send_binary : Text → Socket S → Socket S
  send_binary b s = renew_keep_alive (put (Output.binary b) s)

  abbrev pub send_ping : Text → Socket S → Socket S
  send_ping b = put (Output.ping b)

  abbrev pub send_pong : Text → Socket S → Socket S
  send_pong b = put (Output.pong b)

  unfoldable pub send_close : ℕ → Socket S → Socket S
  send_close code s =
      if s.close_sent
      then s
      else stop_keep_alive (put (Output.close code) (record s { close_sent = true }))
