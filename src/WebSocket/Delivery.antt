-- ===== src/WebSocket/Delivery.antt =====
-- From the bytes of a client to the messages of the worker: src/tabstractwebsocket.cpp and
-- src/twebsocket.cpp together.
use tf.Base.{
  ℕ, zero, suc, ◌^◌, ◌≤◌, ◌<◌, ◌≡◌, refl, sym, ap, ◌∙◌, Bool, true, false, List, [], ◌∷◌, ◌++◌,
  some, length, map, length-map, arith, append_assoc, append-nil, All,
}
use tf.Base.Bytes.{IsByte}
use tf.WebSocket.OpCode
use tf.WebSocket.Frame.{
  Frame, new, op_code, validate, is_completed, is_control_frame, is_final_frame,
}
use tf.WebSocket.Parser.{
  Next, again, stop, Outcome, parsed, accept, next_frame, loop, parse, step, resume, store,
}
use tf.WebSocket.Messages.{
  Message, is_last, can_read_request, take_message, read_payloads, deliver, read_request,
}
use tf.WebSocket.Termination.{parse_total}
use tf.WebSocket.RoundTrip.Payload.{received}
use tf.WebSocket.RoundTrip.Frames.{key_of, frame_bytes, Runs, Runs-frame_bytes, go_on, loop-step}

-- An unfragmented message of a client: final, text or binary, with or without a mask.
pub record Sent : Type 0 where
  pub binary : Bool
  pub masked : Bool
  pub key : ℕ
  pub payload : List ℕ

abbrev pub wire_code : Bool → ℕ
wire_code true = 0x82
wire_code false = 0x81

pub record IsSendable (s : Sent) : Type 0 where
  pub key_fits : s.key < 2 ^ 32
  pub length_fits : length s.payload < 2 ^ 31
  pub bytes : All IsByte s.payload

abbrev pub sent_bytes : Sent → List ℕ
sent_bytes s = frame_bytes s.masked (wire_code s.binary) s.key s.payload

abbrev pub stream : List Sent → List ℕ
stream [] = []
stream (s ∷ ss) = sent_bytes s ++ stream ss

-- The frame that the connection holds for it.
abbrev pub held : Sent → Frame
held s = record (received (wire_code s.binary) (key_of s.masked s.key) s.payload) { valid = true }

validate-received :
    (binary : Bool) (key : ℕ) (p : List ℕ)
    → validate (received (wire_code binary) key p)
      ≡ (true, record (received (wire_code binary) key p) { valid = true })
unfolding validate
validate-received true key p = refl
validate-received false key p = refl

accept-wire_code :
    (before : List Frame) (binary : Bool) (key : ℕ) (p rest : List ℕ)
    → accept before (true, record (received (wire_code binary) key p) { valid = true }) rest
      ≡ next_frame (before ++ record (received (wire_code binary) key p) { valid = true } ∷ []) rest
unfolding accept op_code store is_control_frame
accept-wire_code before true key p rest = refl
accept-wire_code before false key p rest = refl

accept-held :
    (before : List Frame) (s : Sent) (rest : List ℕ)
    → accept before
        (validate (received (wire_code s.binary) (key_of s.masked s.key) s.payload))
        rest
      ≡ next_frame (before ++ held s ∷ []) rest
accept-held before s rest =
    rw (validate-received s.binary (key_of s.masked s.key) s.payload)
      (accept-wire_code before s.binary (key_of s.masked s.key) s.payload rest)

-- A stream of messages is read frame by frame.
Runs-stream :
    (before : List Frame) (s : Sent) (ss : List Sent)
    → IsSendable s
    → All IsSendable ss
    → Runs before new (stream (s ∷ ss)) (parsed (before ++ map held (s ∷ ss)) [])
unfolding next_frame
Runs-stream before s [] h hs =
    Runs-frame_bytes s.masked before (wire_code s.binary) s.key s.payload [] _ h.length_fits
      h.key_fits h.bytes (0, ap (go_on 0) (accept-held before s []))
Runs-stream before s (r ∷ ss) h (k, hs) =
    let (fuel, e) = Runs-stream (before ++ held s ∷ []) r ss k hs in
    Runs-frame_bytes s.masked before (wire_code s.binary) s.key s.payload (stream (r ∷ ss)) _
      h.length_fits h.key_fits h.bytes
      (
        fuel,
        ap (go_on fuel) (accept-held before s (stream (r ∷ ss)))
            ∙ e
            ∙ ap (λ fs. some (parsed fs []))
                (append_assoc before (held s ∷ []) (map held (r ∷ ss))),
      )

-- Any two amounts of fuel that suffice lead to the same outcome.
loop_det :
    (m n : ℕ) (before : List Frame) (f : Frame) (bytes : List ℕ) (o o' : Outcome)
    → loop m before f bytes ≡ some o
    → loop n before f bytes ≡ some o'
    → o ≡ o'
unfolding loop
loop_det zero zero before f [] o o' e e' = cc
loop_det zero (suc n) before f [] o o' e e' = cc
loop_det (suc m) zero before f [] o o' e e' = cc
loop_det (suc m) (suc n) before f [] o o' e e' = cc
loop_det zero n before f (b ∷ bytes) o o' e e' = cc
loop_det (suc m) zero before f (b ∷ bytes) o o' e e' = cc
loop_det (suc m) (suc n) before f (b ∷ bytes) o o' e e' =
    go (step before f (b ∷ bytes)) (sym (loop-step m before f b bytes) ∙ e)
      (sym (loop-step n before f b bytes) ∙ e')
      (λ before' f' bytes' p p'. loop_det m n before' f' bytes' o o' p p')
  where
    go :
        (x : Next)
        → go_on m x ≡ some o
        → go_on n x ≡ some o'
        → ((before' : List Frame) (f' : Frame) (bytes' : List ℕ)
            → loop m before' f' bytes' ≡ some o
            → loop n before' f' bytes' ≡ some o'
            → o ≡ o')
        → o ≡ o'
    go (again before' f' bytes') p p' ih = ih before' f' bytes' p p'
    go (stop x) p p' ih = cc

pub parse-Runs : (bytes : List ℕ) (o : Outcome) → Runs [] new bytes o → parse [] bytes ≡ some o
unfolding parse resume
parse-Runs bytes o (fuel, e) =
    let (o', e') = parse_total [] bytes tt in
    e' ∙ ap some (loop_det (length bytes) fuel [] new bytes o' o e' e)

-- Text and binary messages that a client sends unfragmented, each of fewer than 2^31 bytes, masked or
-- not, are read back with their kind and payload, in any number and in the order sent: the frames of
-- a new connection are exactly those of the messages and no byte is left over.
pub parse-stream :
    (s : Sent) (ss : List Sent)
    → IsSendable s
    → All IsSendable ss
    → parse [] (stream (s ∷ ss)) ≡ some (parsed (map held (s ∷ ss)) [])
parse-stream s ss h hs = parse-Runs (stream (s ∷ ss)) _ (Runs-stream [] s ss h hs)

-- The message as the worker gets it: its kind and its payload.
abbrev pub kind : Bool → ℕ
kind true = OpCode.binary_frame
kind false = OpCode.text_frame

abbrev pub message_of : Sent → Message
message_of s = (kind s.binary, s.payload)

is_last-held :
    (binary : Bool) (key : ℕ) (p : List ℕ)
    → is_last (record (received (wire_code binary) key p) { valid = true }) ≡ true
unfolding is_last is_final_frame is_completed
is_last-held true key p = refl
is_last-held false key p = refl

op_code-held :
    (binary : Bool) (key : ℕ) (p : List ℕ)
    → op_code (record (received (wire_code binary) key p) { valid = true }) ≡ kind binary
unfolding op_code
op_code-held true key p = refl
op_code-held false key p = refl

read_payloads-held :
    (ss : List Sent) (n : ℕ) (payloads : List Message)
    → length ss ≤ n
    → read_payloads n payloads (map held ss) ≡ some (payloads ++ map message_of ss, [])
unfolding read_payloads can_read_request take_message
read_payloads-held [] zero payloads le = rw (append-nil payloads)
read_payloads-held [] (suc n) payloads le = rw (append-nil payloads)
read_payloads-held (s ∷ ss) zero payloads le = absurd (omega arith)
read_payloads-held (s ∷ ss) (suc n) payloads le =
    let key = key_of s.masked s.key in
    rw (is_last-held s.binary key s.payload, op_code-held s.binary key s.payload)
      (read_payloads-held ss n (payloads ++ message_of s ∷ []) (omega arith)
        ∙ ap (λ ms. some (ms, [])) (append_assoc payloads (message_of s ∷ []) (map message_of ss)))

-- End to end, where no worker is running: the worker of a new connection gets each unfragmented
-- message of fewer than 2^31 bytes that the client has sent, in order, and the connection keeps no
-- frame and no byte.
pub read_request-stream :
    (s : Sent) (ss : List Sent)
    → IsSendable s
    → All IsSendable ss
    → read_request 0 [] [] (some (stream (s ∷ ss))) ≡ some (deliver (map message_of (s ∷ ss)) [] [])
unfolding read_request
read_request-stream s ss h hs = rw (parse-stream s ss h hs) (
    rw (
      read_payloads-held (s ∷ ss) (length (map held (s ∷ ss))) []
        (omega (arith, length-map held (s ∷ ss)))))
