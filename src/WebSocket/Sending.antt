-- ===== src/WebSocket/Sending.antt =====
-- src/tabstractwebsocket.cpp: the functions that send frames. Each gives the bytes that are handed
-- to writeRawData(); a text is given by its bytes in UTF-8. The keep-alive timer is left aside.
use tf.Base.{
  ℕ, ◌%◌, ◌^◌, ◌<◌, ◌≡◌, refl, sym, ap, ◌∙◌, Bool, true, false, List, [], ◌∷◌, ◌++◌, Option, none,
  some, map, length, if◌then◌else◌, All, arith, append-nil,
}
use tf.Base.Bytes.{IsByte, be_bytes}
use tf.WebSocket.OpCode
use tf.WebSocket.Frame.{
  new, set_op_code, set_payload, to_byte_array, wire_first_byte, wire_mask, wire_length, op_code,
}
use tf.WebSocket.Messages.{deliver, read_request}
use tf.WebSocket.Delivery.{
  Sent, IsSendable, sent_bytes, stream, message_of, read_request-stream, wire_code,
}

unfoldable pub send_text : List ℕ → List ℕ
send_text message = to_byte_array (set_payload message (set_op_code OpCode.text_frame new))

unfoldable pub send_binary : List ℕ → List ℕ
send_binary data' = to_byte_array (set_payload data' (set_op_code OpCode.binary_frame new))

unfoldable pub send_ping : List ℕ → List ℕ
send_ping data' = to_byte_array (set_payload data' (set_op_code OpCode.ping new))

unfoldable pub send_pong : List ℕ → List ℕ
send_pong data' = to_byte_array (set_payload data' (set_op_code OpCode.pong new))

-- sendClose(code), with closeSent before and after: a second call sends nothing. The payload is
-- written behind the back of setPayload(), and its length stays 0.
unfoldable pub send_close : Bool → ℕ → Bool × Option (List ℕ)
send_close close_sent code = if close_sent then (true, none) else (
  true,
  some (
      to_byte_array
        (record (set_op_code OpCode.close new) { payload = be_bytes 2 (code % 2 ^ 16) })),
)

-- sendBinary() and sendText() by turns.
abbrev pub send : Bool × List ℕ → List ℕ
send (true, p) = send_binary p
send (false, p) = send_text p

abbrev pub send_all : List (Bool × List ℕ) → List ℕ
send_all [] = []
send_all (m ∷ ms) = send m ++ send_all ms

abbrev pub unmasked : Bool × List ℕ → Sent
unmasked (binary, p) = record { binary = binary; masked = false; key = 0; payload = p }

send-sent_bytes : (m : Bool × List ℕ) → send m ≡ sent_bytes (unmasked m)
unfolding send_binary send_text to_byte_array set_payload set_op_code wire_first_byte wire_mask
    op_code
send-sent_bytes (true, p) =
    ap (λ l. wire_code true ∷ (l ++ p)) (sym (append-nil (wire_length 0 (length p))))
send-sent_bytes (false, p) =
    ap (λ l. wire_code false ∷ (l ++ p)) (sym (append-nil (wire_length 0 (length p))))

send_all-stream : (ms : List (Bool × List ℕ)) → send_all ms ≡ stream (map unmasked ms)
send_all-stream [] = refl
send_all-stream (m ∷ ms) =
    ap (λ bs. bs ++ send_all ms) (send-sent_bytes m)
    ∙ ap (λ bs. sent_bytes (unmasked m) ++ bs) (send_all-stream ms)

-- A payload of bytes that an `int` can measure.
abbrev pub IsPayload : Bool × List ℕ → Type 0
IsPayload m = (length m.1 < 2 ^ 31) × All IsByte m.1

unmasked-IsSendable : (m : Bool × List ℕ) → IsPayload m → IsSendable (unmasked m)
unmasked-IsSendable m h = record { key_fits = omega arith; length_fits = h.0; bytes = h.1 }

All-unmasked : (ms : List (Bool × List ℕ)) → All IsPayload ms → All IsSendable (map unmasked ms)
All-unmasked [] h = tt
All-unmasked (m ∷ ms) (h, hs) = (unmasked-IsSendable m h, All-unmasked ms hs)

-- What one socket sends with sendText() and sendBinary(), a new connection of the same program reads
-- back: the worker gets each message, of fewer than 2^31 bytes, with its kind and its payload, in
-- the order sent.
pub read_request-send_all :
    (m : Bool × List ℕ) (ms : List (Bool × List ℕ))
    → IsPayload m
    → All IsPayload ms
    → read_request 0 [] [] (some (send_all (m ∷ ms)))
      ≡ some (deliver (map (λ x. message_of (unmasked x)) (m ∷ ms)) [] [])
read_request-send_all m ms h hs =
    ap (λ bs. read_request 0 [] [] (some bs)) (send_all-stream (m ∷ ms))
    ∙ read_request-stream (unmasked m) (map unmasked ms) (unmasked-IsSendable m h)
        (All-unmasked ms hs)
    ∙ ap (λ xs. some (deliver xs [] [])) (map-map (m ∷ ms))
  where
    map-map :
        (xs : List (Bool × List ℕ))
        → map message_of (map unmasked xs) ≡ map (λ x. message_of (unmasked x)) xs
    map-map [] = refl
    map-map (x ∷ xs) = ap (λ ys. message_of (unmasked x) ∷ ys) (map-map xs)
