-- ===== src/WebSocket/Assembly.antt =====
-- The loops of readRequest() of src/twebsocket.cpp end, lose no byte and keep the order.
use tf.Base.{
  ℕ, zero, suc, ◌≤◌, ◌<◌, ◌≡◌, refl, sym, ap, ◌∙◌, true, false, List, [], ◌∷◌, ◌++◌, Option, some,
  length, inl, inr, Bool-cases, arith, append_assoc, append-nil,
}
use tf.WebSocket.Frame.{Frame}
use tf.WebSocket.Messages.{
  Message, is_last, can_read_request, take_message, first_op_code, push_message, read_payloads,
}

abbrev pub payload_bytes : List Frame → List ℕ
payload_bytes [] = []
payload_bytes (f ∷ fs) = f.payload ++ payload_bytes fs

abbrev pub message_bytes : List Message → List ℕ
message_bytes [] = []
message_bytes ((code, pay) ∷ ms) = pay ++ message_bytes ms

-- The bytes of a message taken from a list that has one, and of the frames behind it.
record IsTaken (pay : List ℕ) (frames : List Frame) (r : Option (List ℕ) × List Frame)
    : Type 0 where
  taken : List ℕ
  found : r.0 ≡ some taken
  bytes : taken ++ payload_bytes r.1 ≡ pay ++ payload_bytes frames
  shorter : length r.1 < length frames

take_message-IsTaken :
    (pay : List ℕ) (frames : List Frame)
    → can_read_request frames ≡ true
    → IsTaken pay frames (take_message pay frames)
unfolding can_read_request take_message
take_message-IsTaken pay [] h = absurd (cc)
take_message-IsTaken pay (f ∷ frames) h = elim (Bool-cases (is_last f)) [
  | inl e ↦ rw e (record {
    taken = pay ++ f.payload;
    found = refl;
    bytes = append_assoc pay f.payload (payload_bytes frames);
    shorter = omega arith;
  })
  | inr e ↦
      let ih = take_message-IsTaken (pay ++ f.payload) frames (ground arith) in
      rw e (record {
        taken = ih.taken;
        found = ih.found;
        bytes = ih.bytes ∙ append_assoc pay f.payload (payload_bytes frames);
        shorter = omega (arith, ih.shorter);
      })
]

message_bytes-append :
    (ms : List Message) (code : ℕ) (pay : List ℕ)
    → message_bytes (ms ++ (code, pay) ∷ []) ≡ message_bytes ms ++ pay
message_bytes-append [] code pay = append-nil pay
message_bytes-append ((c, p) ∷ ms) code pay =
    ap (λ t. p ++ t) (message_bytes-append ms code pay)
    ∙ sym (append_assoc p (message_bytes ms) pay)

-- What the loops return: no message is left in the frames, and the bytes of the messages followed
-- by those of the frames left are the bytes that were there.
pub record IsRead (payloads : List Message) (frames : List Frame)
    (r : Option (List Message × List Frame)) : Type 0 where
  pub messages : List Message
  pub left : List Frame
  pub returns : r ≡ some (messages, left)
  pub none_left : can_read_request left ≡ false
  pub bytes :
      message_bytes messages ++ payload_bytes left ≡ message_bytes payloads ++ payload_bytes frames

read_payloads_done :
    (fuel : ℕ) (payloads : List Message) (frames : List Frame)
    → can_read_request frames ≡ false
    → read_payloads fuel payloads frames ≡ some (payloads, frames)
unfolding read_payloads
read_payloads_done zero payloads frames e = rw e
read_payloads_done (suc fuel) payloads frames e = rw e

read_payloads_more :
    (fuel : ℕ) (payloads : List Message) (frames : List Frame)
    → can_read_request frames ≡ true
    → read_payloads (suc fuel) payloads frames
      ≡ read_payloads fuel
          (push_message (first_op_code frames) (take_message [] frames).0 payloads)
          (take_message [] frames).1
unfolding read_payloads
read_payloads_more fuel payloads frames e = rw e

IsRead-more :
    (fuel : ℕ) (payloads : List Message) (frames : List Frame)
    → can_read_request frames ≡ true
    → length frames ≤ suc fuel
    → ((ps : List Message) (fs : List Frame)
        → length fs ≤ fuel
        → IsRead ps fs (read_payloads fuel ps fs))
    → IsRead payloads frames (read_payloads (suc fuel) payloads frames)
IsRead-more fuel payloads frames e le rest =
    let t = take_message-IsTaken [] frames e in
    let code = first_op_code frames in
    let left = (take_message [] frames).1 in
    let ih = rest (payloads ++ (code, t.taken) ∷ []) left (omega (arith, t.shorter)) in
    record {
      messages = ih.messages;
      left = ih.left;
      returns =
          read_payloads_more fuel payloads frames e
          ∙ ap (λ o. read_payloads fuel (push_message code o payloads) left) t.found
          ∙ ih.returns;
      none_left = ih.none_left;
      bytes =
          ih.bytes
          ∙ ap (λ bs. bs ++ payload_bytes left) (message_bytes-append payloads code t.taken)
          ∙ append_assoc (message_bytes payloads) t.taken (payload_bytes left)
          ∙ ap (λ bs. message_bytes payloads ++ bs) t.bytes;
    }

read_payloads-IsRead_from :
    (fuel : ℕ) (payloads : List Message) (frames : List Frame)
    → length frames ≤ fuel
    → IsRead payloads frames (read_payloads fuel payloads frames)
unfolding read_payloads can_read_request
read_payloads-IsRead_from zero payloads [] le = record {
  messages = payloads;
  left = [];
  returns = refl;
  none_left = refl;
  bytes = refl;
}
read_payloads-IsRead_from zero payloads (f ∷ frames) le = absurd (omega arith)
read_payloads-IsRead_from (suc fuel) payloads frames le =
    elim (Bool-cases (can_read_request frames)) [
      | inl e ↦
          IsRead-more fuel payloads frames e le
            (λ ps fs le'. read_payloads-IsRead_from fuel ps fs le')
      | inr e ↦ record {
        messages = payloads;
        left = frames;
        returns = read_payloads_done (suc fuel) payloads frames e;
        none_left = e;
        bytes = refl;
      }
    ]

-- With as much fuel as there are frames the loops of readRequest() end. Then no message is left
-- unread in the frames, and the payloads of the messages followed by those of the frames left over
-- are the payloads of the given frames: no byte is lost, added or moved.
pub read_payloads-IsRead :
    (frames : List Frame) → IsRead [] frames (read_payloads (length frames) [] frames)
read_payloads-IsRead frames = read_payloads-IsRead_from (length frames) [] frames (omega arith)
