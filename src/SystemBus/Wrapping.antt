-- ===== src/SystemBus/Wrapping.antt =====
-- What the loop of recvAll() of src/tsystembus.cpp does with a length near 2 ^ 32.
use tf.Base.{ℕ, zero, suc, ◌-◌, ◌^◌, ◌≤◌, ◌≡◌, refl, List, none, length, arith}
use tf.SystemBus.{Message, message_size, announced, parse, recv_all}

message_size-wraps : (bytes : List ℕ) → announced bytes ≡ 2 ^ 32 - 5 → message_size bytes ≡ 0
unfolding message_size
message_size-wraps bytes e = omega (arith, e)

parse_rest : (bytes : List ℕ) → message_size bytes ≡ 0 → 5 ≤ length bytes → (parse bytes).1 ≡ bytes
unfolding parse
parse_rest bytes e h = rw e (ground arith)

-- A header that announces 2 ^ 32 - 5 bytes makes the size of the message 0 in 32-bit arithmetic, so
-- that each round of recvAll() takes no byte off the buffer: the loop does not end, whatever
-- follows the header.
pub recv_all-wraps :
    (fuel : ℕ) (ret : List Message) (bytes : List ℕ)
    → announced bytes ≡ 2 ^ 32 - 5
    → 5 ≤ length bytes
    → recv_all fuel ret bytes ≡ none
unfolding recv_all
recv_all-wraps zero ret bytes e h = refl
recv_all-wraps (suc fuel) ret bytes e h =
    let size = message_size-wraps bytes e in
    rw (size, parse_rest bytes size h, recv_all-wraps fuel _ bytes e h) (ground arith)
