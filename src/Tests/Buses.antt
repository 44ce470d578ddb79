-- ===== src/Tests/Buses.antt =====
-- Runs of the code of src/tsystembus.cpp.
use tf.Base.{ℕ, ◌≡◌, ◌<◌, ◌-◌, ◌^◌, length, refl, List, [], ◌∷◌, none, some, map, arith}
use tf.Base.Bytes.{be_value}
use tf.SystemBus.{recv_all, message_size, announced}
use tf.SystemBus.Stream.{arrived, stream, recv_all-stream}
use tf.SystemBus.Wrapping.{recv_all-wraps}

abbrev sent : List (ℕ × List ℕ)
sent = (1, 10 ∷ 20 ∷ []) ∷ (4, []) ∷ []

-- The first bytes of a third message.
abbrev started : List ℕ
started = 0x81 ∷ 0 ∷ 0 ∷ 0 ∷ 2 ∷ 10 ∷ []

started_short : length started < message_size started
unfolding message_size announced be_value
started_short = omega arith

recv_all-stream_example : recv_all 3 [] (stream sent started) ≡ some (map arrived sent, started)
recv_all-stream_example =
    recv_all-stream sent started
      (
        record { positive = omega arith; known = omega arith; fits = omega arith },
        (record { positive = omega arith; known = omega arith; fits = omega arith }, tt),
      )
      started_short

announced_wraps : announced (0x81 ∷ 0xff ∷ 0xff ∷ 0xff ∷ 0xfb ∷ 7 ∷ []) ≡ 2 ^ 32 - 5
unfolding announced be_value
announced_wraps = refl

recv_all-wraps_example : recv_all 1000 [] (0x81 ∷ 0xff ∷ 0xff ∷ 0xff ∷ 0xfb ∷ 7 ∷ []) ≡ none
recv_all-wraps_example =
    recv_all-wraps 1000 [] (0x81 ∷ 0xff ∷ 0xff ∷ 0xff ∷ 0xfb ∷ 7 ∷ []) announced_wraps (omega arith)
