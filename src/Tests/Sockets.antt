-- ===== src/Tests/Sockets.antt =====
-- Runs of the code of src/tabstractwebsocket.cpp and src/twebsocket.cpp.
use tf.Base.{ℕ, ◌^◌, ◌<◌, ◌≡◌, true, false, [], ◌∷◌, ◌++◌, some, arith}
use tf.WebSocket.OpCode
use tf.WebSocket.Frame.{Frame, new, header_parsed}
use tf.WebSocket.Parser.{Outcome, parse}
use tf.WebSocket.Messages.{deliver, read_request}
use tf.WebSocket.Sending.{send_all, read_request-send_all}
use tf.WebSocket.Termination.{parse_total}
use tf.WebSocket.Delivery.{Sent, IsSendable, stream, read_request-stream}
use tf.WebSocket.Interleaving.{IsPart, fragment, ping, final_part, read_request-interleaved}

-- A masked text, an empty binary message and a text without a mask.
abbrev hello : Sent
hello = record { binary = false; masked = true; key = 0x37fa213d; payload = 72 ∷ 101 ∷ 108 ∷ [] }

abbrev nothing : Sent
nothing = record { binary = true; masked = true; key = 7; payload = [] }

abbrev plain : Sent
plain = record { binary = false; masked = false; key = 0; payload = 65 ∷ 66 ∷ [] }

hello-IsSendable : IsSendable hello
hello-IsSendable = record {
  key_fits = omega arith;
  length_fits = omega arith;
  bytes = (omega arith, (omega arith, (omega arith, tt)));
}

nothing-IsSendable : IsSendable nothing
nothing-IsSendable = record { key_fits = omega arith; length_fits = omega arith; bytes = tt }

plain-IsSendable : IsSendable plain
plain-IsSendable = record {
  key_fits = omega arith;
  length_fits = omega arith;
  bytes = (omega arith, (omega arith, tt));
}

read_request-stream_example :
    read_request 0 [] [] (some (stream (hello ∷ nothing ∷ plain ∷ [])))
    ≡ some (
        deliver
          ((OpCode.text_frame, 72 ∷ 101 ∷ 108 ∷ [])
            ∷ (OpCode.binary_frame, [])
            ∷ (OpCode.text_frame, 65 ∷ 66 ∷ [])
            ∷ [])
          []
          [])
read_request-stream_example =
    read_request-stream hello (nothing ∷ plain ∷ []) hello-IsSendable
      (nothing-IsSendable, (plain-IsSendable, tt))

-- A connection that waits for the rest of a payload of three bytes.
abbrev waiting : Frame
waiting = record new { first_byte = 0x82; payload_length = 3; state = header_parsed }

parse_total_example : (o : Outcome) × (parse (waiting ∷ []) (1 ∷ 2 ∷ 3 ∷ 0x81 ∷ []) ≡ some o)
parse_total_example = parse_total (waiting ∷ []) (1 ∷ 2 ∷ 3 ∷ 0x81 ∷ []) (omega arith, omega arith)

read_request-interleaved_example :
    read_request 0 [] []
      (some (fragment 5 (72 ∷ []) ++ (ping 5 (33 ∷ []) ++ final_part 5 (105 ∷ []))))
    ≡ some (deliver ((OpCode.text_frame, 72 ∷ 33 ∷ []) ∷ []) (new ∷ []) [])
read_request-interleaved_example =
    read_request-interleaved 5 (72 ∷ []) (33 ∷ []) (105 ∷ []) (part 72 (omega arith))
      (part 33 (omega arith)) (part 105 (omega arith)) (omega arith)
  where
    part : (c : ℕ) → c < 2 ^ 8 → IsPart 5 (c ∷ [])
    part c h = record {
      key_fits = omega arith;
      length_fits = omega arith;
      bytes = (omega arith, tt);
    }

read_request-send_all_example :
    read_request 0 [] [] (some (send_all ((true, 1 ∷ []) ∷ (false, 65 ∷ 66 ∷ []) ∷ [])))
    ≡ some (deliver ((OpCode.binary_frame, 1 ∷ []) ∷ (OpCode.text_frame, 65 ∷ 66 ∷ []) ∷ []) [] [])
read_request-send_all_example =
    read_request-send_all (true, 1 ∷ []) ((false, 65 ∷ 66 ∷ []) ∷ [])
      (omega arith, (omega arith, tt)) ((omega arith, (omega arith, (omega arith, tt))), tt)
