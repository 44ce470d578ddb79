-- ===== src/Tests/Transfers.antt =====
-- Runs of the code of src/tsendbuffer.cpp and src/tepollsocket.cpp.
use tf.Base.{◌≡◌, refl, true, false, List, [], ◌∷◌, ◌++◌, none, some, arith}
use tf.Base.Int.{pos, negsuc}
use tf.Base.Text.{codes}
use tf.SendBuffer.{Buffer, new, at_end, read_file, get_data, seek_data, prepend}
use tf.EpollSocket.{Socket, sent, eagain, epipe, send_data, send_all, send, enqueue_send_data}
use tf.EpollSocket.Stream.{Event, enqueued, writable, on_events, on_events-stream, stream, queued}

-- A header with a file of five bytes.
abbrev response : Buffer
response = new (codes "HEAD") (some (record { unread = codes "12345"; fails = false }))

abbrev lost : Buffer
lost = new (codes "H") (some (record { unread = codes "123"; fails = true }))

abbrev idle : Socket
idle = record { send_buf = []; poll_out = true; written = []; access_log = [] }

-- Three bytes are taken, then none for a while, then the rest in pieces of at most four bytes.
abbrev events : List Event
events =
    enqueued response
    ∷ writable (sent 2 ∷ eagain ∷ [])
    ∷ enqueued (new (codes "x") none)
    ∷ writable (sent 0 ∷ sent 9 ∷ sent 9 ∷ sent 9 ∷ [])
    ∷ []

on_events-stream_example :
    (s' : Socket) × (on_events 4 events idle ≡ some s') × (stream s' ≡ stream idle ++ queued events)
on_events-stream_example = on_events-stream 4 events idle (omega arith)

all_written :
    on_events 4 events idle
    ≡ some (record {
      send_buf = [];
      poll_out = false;
      written = codes "HEAD12345x";
      access_log = pos 9 ∷ pos 1 ∷ [];
    })
unfolding on_events enqueue_send_data send send_all send_data get_data read_file seek_data at_end
all_written = refl

-- A file that cannot be read is left out, as if the response had ended.
left_out :
    on_events 4 (enqueued lost ∷ writable (sent 9 ∷ []) ∷ []) idle
    ≡ some
        (record { send_buf = []; poll_out = false; written = codes "H"; access_log = pos 1 ∷ [] })
unfolding on_events enqueue_send_data send send_all send_data get_data read_file seek_data at_end
left_out = refl

-- A connection that is lost stays in the queue with the length -1.
broken :
    send 4 (sent 0 ∷ epipe ∷ []) (record idle { send_buf = new (codes "ab") none ∷ [] })
    ≡ some (
      false,
      record {
        send_buf =
            record {
              array_buffer = codes "ab";
              body_file = none;
              response_bytes = negsuc 0;
              start_pos = 1;
            }
            ∷ [];
        poll_out = false;
        written = codes "a";
        access_log = [];
      },
    )
unfolding send send_all send_data get_data read_file seek_data at_end
broken = refl

prepended : prepend (codes "ab") (seek_data 1 (new (codes "xyz") none)) ≡ new (codes "abyz") none
unfolding prepend seek_data
prepended = refl
