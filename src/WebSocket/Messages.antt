-- ===== src/WebSocket/Messages.antt =====
-- src/twebsocket.cpp: canReadRequest() and the loops of readRequest(), which join the frames of a
-- connection to messages. readAllBinaryRequest() of src/tepollwebsocket.cpp has the same loops.
use tf.Base.{
  ℕ, zero, suc, Bool, ◌&&◌, List, [], ◌∷◌, ◌++◌, Option, none, some, length, any, if◌then◌else◌,
}
use tf.WebSocket.Frame.{Frame, is_final_frame, is_completed, op_code}
use tf.WebSocket.Parser.{Outcome, failed, parsed, parse}

unfoldable pub is_last : Frame → Bool
is_last f = is_final_frame f && is_completed f.state

unfoldable pub can_read_request : List Frame → Bool
can_read_request frames = any is_last frames

-- The inner loop: frames are taken from the front up to a final one. `none` stands for a list that
-- runs empty before.
unfoldable pub take_message : List ℕ → List Frame → Option (List ℕ) × List Frame
take_message pay [] = (none, [])
take_message pay (frm ∷ frames) =
    let rest = take_message (pay ++ frm.payload) frames in
    if is_last frm then (some (pay ++ frm.payload), frames) else rest

abbrev pub Message : Type 0
Message = ℕ × List ℕ

abbrev pub first_op_code : List Frame → ℕ
first_op_code [] = 0
first_op_code (f ∷ fs) = op_code f

abbrev pub push_message : ℕ → Option (List ℕ) → List Message → List Message
push_message code none payloads = payloads
push_message code (some pay) payloads = payloads ++ (code, pay) ∷ []

-- The outer loop; `none` means that the fuel ran out.
unfoldable pub read_payloads : ℕ → List Message → List Frame → Option (List Message × List Frame)
read_payloads zero payloads frames =
    if can_read_request frames then none else some (payloads, frames)
read_payloads (suc fuel) payloads frames =
    let (pay, rest) = take_message [] frames in
    let later = read_payloads fuel (push_message (first_op_code frames) pay payloads) rest in
    if can_read_request frames then later else some (payloads, frames)

-- What readRequest() comes to: nothing while a worker of the connection is running, an emptied
-- buffer where the socket could not be read, a closed connection on a protocol error, and otherwise
-- the messages for a worker, which is started if there are any, with the frames and bytes kept.
pub data Received : Type 0 where
  busy : Received
  read_error : Received
  disconnect : Received
  deliver : List Message → List Frame → (recv_buffer : List ℕ) → Received

deliver_payloads : List ℕ → Option (List Message × List Frame) → Option Received
deliver_payloads unread none = none
deliver_payloads unread (some (payloads, frames)) = some (deliver payloads frames unread)

after_parse : Option Outcome → Option Received
unfolding deliver_payloads
after_parse none = none
after_parse (some (failed frames)) = some disconnect
after_parse (some (parsed frames unread)) =
    deliver_payloads unread (read_payloads (length frames) [] frames)

-- readRequest() with the number of running workers, the frames and bytes kept, and the bytes that
-- the socket has, or none where reading them fails.
unfoldable pub read_request : ℕ → List Frame → List ℕ → Option (List ℕ) → Option Received
unfolding after_parse
read_request (suc workers) frames recv_buffer bytes = some busy
read_request zero frames recv_buffer none = some read_error
read_request zero frames recv_buffer (some bytes) =
    after_parse (parse frames (recv_buffer ++ bytes))
