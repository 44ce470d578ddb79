-- ===== src/SystemBus.antt =====
-- src/tsystembus.h and src/tsystembus.cpp: the messages between the processes of an application.
-- The payload is the serialised target and data; its inner format is that of QDataStream, and is
-- left aside: a payload is any sequence of bytes.
use Prim.Native.Nat.{bit_and, bit_or}
use tf.Base.{
  ℕ, zero, suc, ◌+◌, ◌%◌, ◌^◌, Bool, true, false, not, ◌&&◌, ◌||◌, List, [], ◌∷◌, ◌++◌, Option,
  none, some, length, take, drop, leb, ltb, ◌==◌, if◌then◌else◌,
}
use tf.Base.Bytes.{be_bytes, be_value}
pub mod Stream
pub mod Wrapping

abbrev pub header_len : ℕ
header_len = 5

-- Tf::MaxOpCode
abbrev pub max_op_code : ℕ
max_op_code = 0x04

pub record Message : Type 0 where
  pub first_byte : ℕ
  pub payload : List ℕ
  pub valid : Bool

-- TSystemBusMessage()
abbrev pub no_message : Message
no_message = record { first_byte = 0; payload = []; valid = false }

-- TSystemBusMessage(op, target, data), whose payload is given.
unfoldable pub message : ℕ → List ℕ → Message
message op payload = record {
  first_byte = bit_or 0x80 (bit_and op 0x3f);
  payload = payload;
  valid = false;
}

unfoldable pub first_bit : Message → Bool
first_bit m = not (bit_and m.first_byte 0x80 == 0)

unfoldable pub rsv_bit : Message → Bool
rsv_bit m = not (bit_and m.first_byte 0x40 == 0)

unfoldable pub op_code : Message → ℕ
op_code m = bit_and m.first_byte 0x3f

unfoldable pub validate : Message → Message
unfolding first_bit rsv_bit op_code
validate m = record m {
  valid = first_bit m && (not (rsv_bit m) && (ltb 0 (op_code m) && leb (op_code m) max_op_code));
}

unfoldable pub to_byte_array : Message → List ℕ
to_byte_array m = m.first_byte ∷ (be_bytes 4 (length m.payload) ++ m.payload)

-- `ds >> opcode >> length`: a read past the end gives 0.
unfoldable pub announced : List ℕ → ℕ
announced [] = 0
announced (b ∷ bytes) = if ltb (length bytes) 4 then 0 else be_value (take 4 bytes)

-- length + HEADER_LEN, in unsigned arithmetic of 32 bits.
unfoldable pub message_size : List ℕ → ℕ
message_size bytes = (announced bytes + header_len) % 2 ^ 32

-- mid(HEADER_LEN, length), where a length of 2 ^ 31 or more is a negative `int` and means all.
unfoldable pub payload_of : List ℕ → List ℕ
payload_of bytes =
    if ltb (announced bytes) (2 ^ 31)
    then take (announced bytes) (drop header_len bytes)
    else drop header_len bytes

abbrev first_of : List ℕ → ℕ
first_of [] = 0
first_of (b ∷ bytes) = b

-- parse(bytes): the message and the bytes left.
unfoldable pub parse : List ℕ → Message × List ℕ
parse bytes =
    if ltb (length bytes) header_len || ltb (length bytes) (message_size bytes)
    then (no_message, [])
    else (
      validate (record { first_byte = first_of bytes; payload = payload_of bytes; valid = false }),
      drop (message_size bytes) bytes,
    )

-- readBus(): the bytes received, and whether readyReceive() is emitted.
unfoldable pub read_bus : List ℕ → List ℕ → List ℕ × Bool
read_bus read_buffer received =
    let bytes = read_buffer ++ received in (bytes, not (ltb (length bytes) (message_size bytes)))

-- The loop of recvAll(); `none` means that the fuel ran out.
unfoldable pub recv_all : ℕ → List Message → List ℕ → Option (List Message × List ℕ)
recv_all zero ret read_buffer = none
recv_all (suc fuel) ret read_buffer =
    let (m, rest) = parse read_buffer in
    let more = recv_all fuel (if m.valid then ret ++ m ∷ [] else ret) rest in
    if ltb (length read_buffer) (message_size read_buffer) then some (ret, read_buffer) else more
