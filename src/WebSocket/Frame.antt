-- ===== src/WebSocket/Frame.antt =====
-- src/twebsocketframe.h and src/twebsocketframe.cpp: a frame of the WebSocket protocol, its bit
-- fields, its bytes on the wire and its validation. The first byte is a byte; the mask key and the
-- payload length are unsigned numbers of 32 and 64 bits; the length of a byte array is an `int`.
use Prim.Native.Nat.{bit_and, bit_or}
use tf.Base.{
  ℕ, Bool, true, false, not, ◌&&◌, ◌||◌, List, [], ◌∷◌, ◌++◌, length, leb, ◌==◌, if◌then◌else◌,
}
use tf.Base.Bytes.{be_bytes}
use tf.WebSocket.OpCode

-- enum ProcessingState
pub data ProcessingState : Type 0 where
  empty header_parsed more_data completed : ProcessingState

pub record Frame : Type 0 where
  pub first_byte : ℕ
  pub mask_key : ℕ
  pub payload_length : ℕ
  pub payload : List ℕ
  pub state : ProcessingState
  pub valid : Bool

-- The default constructor, by the initialisers of the members.
abbrev pub new : Frame
new = record {
  first_byte = 0x80;
  mask_key = 0;
  payload_length = 0;
  payload = [];
  state = empty;
  valid = false;
}

-- clear() resets every member to its initial value.
unfoldable pub clear : Frame → Frame
clear f = record f {
  first_byte = 0x80;
  mask_key = 0;
  payload_length = 0;
  payload = [];
  state = empty;
  valid = false;
}

-- The conversion of an integer to bool.
abbrev pub to_bool : ℕ → Bool
to_bool n = not (n == 0)

unfoldable pub fin_bit : Frame → Bool
fin_bit f = to_bool (bit_and f.first_byte 0x80)

unfoldable pub rsv1_bit : Frame → Bool
rsv1_bit f = to_bool (bit_and f.first_byte 0x40)

unfoldable pub rsv2_bit : Frame → Bool
rsv2_bit f = to_bool (bit_and f.first_byte 0x20)

unfoldable pub rsv3_bit : Frame → Bool
rsv3_bit f = to_bool (bit_and f.first_byte 0x10)

unfoldable pub is_final_frame : Frame → Bool
unfolding fin_bit
is_final_frame f = fin_bit f

unfoldable pub op_code : Frame → ℕ
op_code f = bit_and f.first_byte 0xf

unfoldable pub is_control_frame : Frame → Bool
unfolding op_code
is_control_frame f = to_bool (bit_and (op_code f) 0x08)

unfoldable pub set_fin_bit : Bool → Frame → Frame
set_fin_bit fin f = record f {
  first_byte = if fin then bit_or f.first_byte 0x80 else bit_and f.first_byte 0x7f;
}

unfoldable pub set_op_code : ℕ → Frame → Frame
set_op_code code f = record f { first_byte = bit_or (bit_and f.first_byte 0xf0) code }

unfoldable pub set_payload : List ℕ → Frame → Frame
set_payload payload f = record f { payload = payload; payload_length = length payload }

-- The first byte on the wire: always final, and a text frame where no kind is set.
unfoldable pub wire_first_byte : Frame → ℕ
unfolding op_code
wire_first_byte f = let b = bit_or f.first_byte 0x80 in if op_code f == 0 then bit_or b 0x1 else b

-- The second byte and the extended length, by the three ranges of the length.
unfoldable pub wire_length : ℕ → ℕ → List ℕ
wire_length mask_bit plen =
    if leb plen 125
    then bit_or mask_bit plen ∷ []
    else if leb plen 0xffff
    then bit_or mask_bit 126 ∷ be_bytes 2 plen
    else bit_or mask_bit 127 ∷ be_bytes 8 plen

unfoldable pub wire_mask : ℕ → List ℕ
wire_mask mask_key = if mask_key == 0 then [] else be_bytes 4 mask_key

unfoldable pub to_byte_array : Frame → List ℕ
unfolding wire_first_byte wire_length wire_mask
to_byte_array f =
    wire_first_byte f
    ∷ (wire_length (if f.mask_key == 0 then 0 else 0x80) (length f.payload)
        ++ (wire_mask f.mask_key ++ f.payload))

unfoldable pub is_completed : ProcessingState → Bool
is_completed completed = true
is_completed _ = false

-- The three rounds of validate(): reserved bits, kind, control frame.
rsv_valid : Frame → Bool
unfolding rsv1_bit rsv2_bit rsv3_bit
rsv_valid f = not (rsv1_bit f) && (not (rsv2_bit f) && not (rsv3_bit f))

op_code_valid : Frame → Bool
unfolding op_code
op_code_valid f =
    (leb OpCode.continuation (op_code f) && leb (op_code f) OpCode.binary_frame)
    || (leb OpCode.close (op_code f) && leb (op_code f) OpCode.pong)

control_valid : Frame → Bool
unfolding fin_bit
control_valid f = leb f.payload_length 125 && fin_bit f

-- validate() sets `valid` and returns it; an incomplete frame is rejected and left alone.
unfoldable pub validate : Frame → Bool × Frame
unfolding is_completed rsv_valid op_code_valid control_valid is_control_frame
validate f =
    if is_completed f.state
    then (let ok =
          rsv_valid f
          && (op_code_valid f && (if is_control_frame f then control_valid f else true)) in
        (ok, record f { valid = ok }))
    else (false, f)
