-- ===== src/WebSocket/Parser.antt =====
-- src/tabstractwebsocket.cpp: parse(), which reads frames from the received bytes. The list of
-- frames is its finished part and the frame being read, which `pfrm` points to. The header is read
-- from a copy of the next 14 bytes, as there, and is skipped only when it is whole.
use Prim.Native.Nat.{bit_and, bit_xor}
use tf.Base.{
  ℕ, zero, suc, ◌+◌, ◌-◌, ◌*◌, ◌%◌, ◌^◌, min, Bool, true, false, not, ◌&&◌, ◌||◌, List, [], ◌∷◌,
  ◌++◌, Option, none, some, length, take, drop, get_or, leb, ltb, ◌==◌, if◌then◌else◌,
}
use tf.Base.Bytes.{be_bytes, be_value}
use tf.WebSocket.OpCode
use tf.WebSocket.Frame.{
  Frame, empty, header_parsed, more_data, completed, new, clear, to_bool, op_code, is_final_frame,
  is_control_frame, validate,
}

pub data Header : Type 0 where
  incomplete : Frame → Header
  protocol_error : Frame → Header
  whole : Frame → (unread : List ℕ) → Header

-- `if (maskFlag)`: the four bytes of the mask key.
unfoldable pub read_mask : Bool → Frame → List ℕ → Header
read_mask mask_flag f rest =
    if mask_flag
    then (if ltb (length rest) 4
        then incomplete f
        else whole (record f { mask_key = be_value (take 4 rest) }) (drop 4 rest))
    else whole f rest

-- `switch (len)`: the length of the payload in 7, 16 or 64 bits.
unfoldable pub read_length : Bool → ℕ → Frame → List ℕ → Header
read_length mask_flag len f rest =
    if len == 126
    then (if ltb (length rest) 2
        then incomplete f
        else (let w = be_value (take 2 rest) in
            if ltb w 126
            then protocol_error f
            else read_mask mask_flag (record f { payload_length = w }) (drop 2 rest)))
    else if len == 127
    then (if ltb (length rest) 8
        then incomplete f
        else (let d = be_value (take 8 rest) in
            if leb d 0xffff
            then protocol_error f
            else read_mask mask_flag (record f { payload_length = d }) (drop 8 rest)))
    else read_mask mask_flag (record f { payload_length = len }) rest

unfoldable pub read_header : Frame → List ℕ → Header
read_header f [] = incomplete f
read_header f (b ∷ []) = incomplete f
read_header f (b ∷ c ∷ rest) =
    read_length (to_bool (bit_and c 0x80)) (bit_and c 0x7f) (record f { first_byte = b }) rest

-- The state after a whole header: an empty payload completes the frame, and a frame of 2 GiB or
-- more is dropped.
unfoldable pub header_done : Frame → Frame
unfolding clear
header_done f =
    if f.payload_length == 0
    then record f { state = completed }
    else if leb (2 * 1024 * 1024 * 1024) f.payload_length
    then clear (record f { state = header_parsed })
    else record f { state = header_parsed }

-- mask[i % 4] ^ byte, from the i-th byte of the payload on.
unfoldable pub unmask : ℕ → ℕ → List ℕ → List ℕ
unmask key i [] = []
unmask key i (c ∷ cs) = bit_xor c (get_or (be_bytes 4 key) (i % 4) 0) ∷ unmask key (i + 1) cs

-- The number of bytes still to read, in unsigned 64-bit arithmetic.
abbrev pub missing : Frame → ℕ
missing f = (f.payload_length + 2 ^ 64 - length f.payload) % 2 ^ 64

unfoldable pub append_payload : Frame → List ℕ → Frame
append_payload f chunk =
    let part = if f.mask_key == 0 then chunk else unmask f.mask_key (length f.payload) chunk in
    let payload = f.payload ++ part in
    record f {
      payload = payload;
      state = if length payload == f.payload_length then completed else more_data;
    }

-- What is left of the received bytes, or -1 for a protocol error.
pub data Outcome : Type 0 where
  failed : List Frame → Outcome
  parsed : List Frame → (unread : List ℕ) → Outcome

-- One round of the loop goes on with a current frame, or ends it.
pub data Next : Type 0 where
  again : List Frame → Frame → List ℕ → Next
  stop : Outcome → Next

unfoldable pub last_frame : List Frame → Option Frame
last_frame [] = none
last_frame (f ∷ []) = some f
last_frame (f ∷ g ∷ fs) = last_frame (g ∷ fs)

-- A continuation frame may not follow a final frame or a control frame.
continuation_valid : Option Frame → Bool
unfolding is_final_frame is_control_frame
continuation_valid none = true
continuation_valid (some before) =
    if is_final_frame before || is_control_frame before then false else true

-- The mutable iterator stops behind the first frame that is no control frame, or at the end.
unfoldable pub insert_control : Frame → List Frame → List Frame
unfolding is_control_frame
insert_control frm [] = frm ∷ []
insert_control frm (f ∷ fs) = if is_control_frame f then f ∷ insert_control frm fs else f ∷ frm ∷ fs

unfoldable pub store : List Frame → Frame → List Frame
unfolding is_control_frame insert_control
store before f = if is_control_frame f then insert_control f before else before ++ f ∷ []

unfoldable pub next_frame : List Frame → List ℕ → Next
next_frame frames [] = stop (parsed frames [])
next_frame frames (b ∷ rest) = again frames new (b ∷ rest)

-- What follows the switch when the current frame is completed.
unfoldable pub accept : List Frame → Bool × Frame → List ℕ → Next
unfolding continuation_valid next_frame
accept before (false, f) rest = again before (clear f) rest
accept before (true, f) rest =
    if op_code f == OpCode.continuation && not (continuation_valid (last_frame before))
    then again before (clear f) rest
    else next_frame (store before f) rest

unfoldable pub settle : List Frame → Frame → List ℕ → Next
settle before f rest = elim f.state [
  | completed ↦ accept before (validate f) rest
  | _ ↦ again before f rest
]

-- What follows the reading of a header from its copy of hdr_len bytes.
unfoldable pub after_header : List Frame → List ℕ → ℕ → Header → Next
after_header before bytes hdr_len (incomplete g) = stop (parsed (before ++ g ∷ []) bytes)
after_header before bytes hdr_len (protocol_error g) = stop (failed (before ++ g ∷ []))
after_header before bytes hdr_len (whole g unread) =
    settle before (header_done g) (drop (hdr_len - length unread) bytes)

-- case Empty
unfoldable pub empty_step : List Frame → Frame → List ℕ → Next
empty_step before f bytes =
    let hdr = take 14 bytes in after_header before bytes (length hdr) (read_header f hdr)

-- case HeaderParsed, case MoreData
unfoldable pub payload_step : List Frame → Frame → List ℕ → Next
payload_step before f bytes =
    let size = min (missing f) (length bytes) in
    if size == 0
    then settle before f bytes
    else settle before (append_payload f (take size bytes)) (drop size bytes)

unfoldable pub step : List Frame → Frame → List ℕ → Next
step before f bytes = elim f.state [
  | empty ↦ empty_step before f bytes
  | header_parsed ↦ payload_step before f bytes
  | more_data ↦ payload_step before f bytes
  | completed ↦ settle before f bytes
]

-- `while (!ds.atEnd())`; `none` means that the fuel ran out.
unfoldable pub loop : ℕ → List Frame → Frame → List ℕ → Option Outcome
loop fuel before f [] = some (parsed (before ++ f ∷ []) [])
loop zero before f (b ∷ bytes) = none
loop (suc fuel) before f (b ∷ bytes) = elim (step before f (b ∷ bytes)) [
  | again before' f' bytes' ↦ loop fuel before' f' bytes'
  | stop o ↦ some o
]

-- The frames before the current one, and the current one: the last frame of the list, or a new
-- frame if there is none or the last one is completed.
unfoldable pub resume : List Frame → List Frame × Frame
resume [] = ([], new)
resume (f ∷ []) = elim f.state [ completed ↦ (f ∷ [], new) | _ ↦ ([], f) ]
resume (f ∷ g ∷ fs) = let (before, cur) = resume (g ∷ fs) in (f ∷ before, cur)

-- parse(recvData): one unit of fuel for each byte.
unfoldable pub parse : List Frame → List ℕ → Option Outcome
parse frames bytes = let (before, cur) = resume frames in loop (length bytes) before cur bytes
