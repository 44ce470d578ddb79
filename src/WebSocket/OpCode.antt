-- ===== src/WebSocket/OpCode.antt =====
-- src/twebsocketframe.h: enum OpCode, the values that the program names.
use tf.Base.{ℕ}

abbrev pub continuation : ℕ
continuation = 0x0

abbrev pub text_frame : ℕ
text_frame = 0x1

abbrev pub binary_frame : ℕ
binary_frame = 0x2

abbrev pub close : ℕ
close = 0x8

abbrev pub ping : ℕ
ping = 0x9

abbrev pub pong : ℕ
pong = 0xa
