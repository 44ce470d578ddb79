-- ===== src/WebSocket/Interleaving.antt =====
-- What src/tabstractwebsocket.cpp and src/twebsocket.cpp make of a control frame that stands
-- between the fragments of a message.
use tf.Base.{
  ℕ, ◌^◌, ◌≤◌, ◌<◌, ◌≡◌, refl, sym, ap, ◌∙◌, true, List, [], ◌∷◌, ◌++◌, some, length, arith,
  append-nil, All,
}
use tf.Base.Bytes.{IsByte}
use tf.WebSocket.Frame.{
  Frame, new, op_code, validate, is_completed, is_control_frame, is_final_frame, clear,
}
use tf.WebSocket.Parser.{
  again, parsed, accept, next_frame, loop, parse, store, insert_control, last_frame,
}
use tf.WebSocket.Messages.{
  is_last, can_read_request, take_message, read_payloads, deliver, read_request,
}
use tf.WebSocket.OpCode
use tf.WebSocket.RoundTrip.Payload.{received}
use tf.WebSocket.RoundTrip.Frames.{frame_bytes, Runs, Runs-frame_bytes, go_on}
use tf.WebSocket.Delivery.{parse-Runs}

-- A payload that a client can send under a key.
pub record IsPart (key : ℕ) (p : List ℕ) : Type 0 where
  pub key_fits : key < 2 ^ 32
  pub length_fits : length p < 2 ^ 31
  pub bytes : All IsByte p

-- The first fragment of a text, a ping and the final continuation of the text, all masked.
abbrev pub fragment : ℕ → List ℕ → List ℕ
fragment key p = frame_bytes true 0x01 key p

abbrev pub ping : ℕ → List ℕ → List ℕ
ping key p = frame_bytes true 0x89 key p

abbrev pub final_part : ℕ → List ℕ → List ℕ
final_part key p = frame_bytes true 0x80 key p

abbrev checked : ℕ → ℕ → List ℕ → Frame
checked b key p = record (received b key p) { valid = true }

validate-ping :
    (key : ℕ) (p : List ℕ)
    → length p ≤ 125
    → validate (received 0x89 key p) ≡ (true, checked 0x89 key p)
unfolding validate
validate-ping key p h = ground arith

module _ (key : ℕ) (p q r : List ℕ) where
  -- The fragment and the ping are stored; the continuation is dropped.
  accept-fragment :
      (rest : List ℕ)
      → accept [] (validate (received 0x01 key p)) rest ≡ next_frame (checked 0x01 key p ∷ []) rest
  unfolding accept validate op_code store is_control_frame
  accept-fragment rest = refl

  accept-ping :
      (rest : List ℕ)
      → length q ≤ 125
      → accept (checked 0x01 key p ∷ []) (validate (received 0x89 key q)) rest
        ≡ next_frame (checked 0x01 key p ∷ checked 0x89 key q ∷ []) rest
  unfolding accept op_code store insert_control is_control_frame
  accept-ping rest h = rw (validate-ping key q h) refl

  accept-final_part :
      accept (checked 0x01 key p ∷ checked 0x89 key q ∷ []) (validate (received 0x80 key r)) []
      ≡ again (checked 0x01 key p ∷ checked 0x89 key q ∷ []) new []
  unfolding accept validate op_code last_frame is_final_frame is_control_frame clear
  accept-final_part = refl

  Runs-interleaved :
      IsPart key p
      → IsPart key q
      → IsPart key r
      → length q ≤ 125
      → Runs [] new
          (fragment key p ++ (ping key q ++ (final_part key r ++ [])))
          (parsed (checked 0x01 key p ∷ checked 0x89 key q ∷ new ∷ []) [])
  unfolding next_frame loop
  Runs-interleaved hp hq hr short =
      Runs-frame_bytes true [] 0x01 key p _ _ hp.length_fits hp.key_fits hp.bytes
        (let (n, e) = then_ping in (n, ap (go_on n) (accept-fragment _) ∙ e))
    where
      then_final :
          Runs
            (checked 0x01 key p ∷ checked 0x89 key q ∷ [])
            new
            (final_part key r ++ [])
            (parsed (checked 0x01 key p ∷ checked 0x89 key q ∷ new ∷ []) [])
      then_final =
          Runs-frame_bytes true _ 0x80 key r [] _ hr.length_fits hr.key_fits hr.bytes
            (1, ap (go_on 1) accept-final_part)

      then_ping :
          Runs
            (checked 0x01 key p ∷ [])
            new
            (ping key q ++ (final_part key r ++ []))
            (parsed (checked 0x01 key p ∷ checked 0x89 key q ∷ new ∷ []) [])
      then_ping =
          Runs-frame_bytes true _ 0x89 key q _ _ hq.length_fits hq.key_fits hq.bytes
            (let (n, e) = then_final in (n, ap (go_on n) (accept-ping _ short) ∙ e))

  parse-interleaved :
      IsPart key p
      → IsPart key q
      → IsPart key r
      → length q ≤ 125
      → parse [] (fragment key p ++ (ping key q ++ final_part key r))
        ≡ some (parsed (checked 0x01 key p ∷ checked 0x89 key q ∷ new ∷ []) [])
  parse-interleaved hp hq hr short =
      ap (λ bs. parse [] (fragment key p ++ (ping key q ++ bs)))
        (sym (append-nil (final_part key r)))
      ∙ parse-Runs _ _ (Runs-interleaved hp hq hr short)

  read_payloads_interleaved :
      read_payloads 3 [] (checked 0x01 key p ∷ checked 0x89 key q ∷ new ∷ [])
      ≡ some ((OpCode.text_frame, p ++ q) ∷ [], new ∷ [])
  unfolding read_payloads can_read_request take_message is_last is_final_frame is_completed op_code
  read_payloads_interleaved = refl

  -- A ping between the two fragments of a text breaks the text: the worker gets one text message,
  -- made of the first fragment and of the payload of the ping, the second fragment is lost, and no
  -- ping is delivered.
  pub read_request-interleaved :
      IsPart key p
      → IsPart key q
      → IsPart key r
      → length q ≤ 125
      → read_request 0 [] [] (some (fragment key p ++ (ping key q ++ final_part key r)))
        ≡ some (deliver ((OpCode.text_frame, p ++ q) ∷ []) (new ∷ []) [])
  unfolding read_request
  read_request-interleaved hp hq hr short =
      rw (parse-interleaved hp hq hr short) (rw read_payloads_interleaved)
