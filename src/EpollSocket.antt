-- ===== src/EpollSocket.antt =====
-- src/tepollsocket.cpp: the queue of a TEpollSocket and send(), which writes it to the socket. What the
-- system answers to the calls of send(2) is a list.
pub mod Queue
pub mod Stream
use tf.Base.{
  ℕ, suc, ◌+◌, ◌-◌, Bool, true, false, List, [], ◌∷◌, ◌++◌, Option, none, some, if◌then◌else◌, ltb,
  take, length, min,
}
use tf.Base.Int.{ℤ, pos, negsuc}
use tf.Base.Text.{Text}
use tf.SendBuffer.{Buffer, at_end, get_data, seek_data}

-- An answer of send(2): that number of bytes and one more, as far as there are so many, or errno. A
-- call with some bytes sends at least one of them or fails. No answer at all is EAGAIN.
pub data Answer : Type 0 where
  sent : ℕ → Answer
  eagain epipe econnreset other_error : Answer

pub record Socket : Type 0 where
  pub send_buf : List Buffer
  pub poll_out : Bool
  pub written : Text
  pub access_log : List ℤ

-- The end of the inner loop: the buffer, the answers left, the bytes sent, and an error if there was one.
pub record Sent : Type 0 where
  pub buffer : Buffer
  pub answers : List Answer
  pub out : Text
  pub refused : Option Answer

-- The end of the outer loop: `success` is whether 0 is returned.
pub record Finished : Type 0 where
  pub success : Bool
  pub queue : List Buffer
  pub out : Text
  pub logs : List ℤ

abbrev plus : ℤ → ℕ → ℤ
plus (pos n) k = pos (n + k)
plus (negsuc n) k = if ltb n k then pos (k - suc n) else negsuc (n - k)

-- "Sent successfully"
abbrev pub advanced : ℕ → Buffer → Buffer
advanced k b = record (seek_data k b) { response_bytes = plus b.response_bytes k }

abbrev pub stopped : Buffer → List Answer → Option Answer → Sent
stopped b more refused = record { buffer = b; answers = more; out = []; refused = refused }

-- What follows an answer, with the rounds that are left.
abbrev pub answered : (Buffer → Sent) → Answer → List Answer → Text → Buffer → Sent
answered rounds (sent n) more bytes b =
    let k = min (suc n) (length bytes) in
    let r = rounds (advanced k b) in record r { out = take k bytes ++ r.out }
answered rounds refused more bytes b = stopped b more (some refused)

abbrev pub offered : (Buffer → Sent) → Answer → List Answer → Text × Buffer → Sent
offered rounds a more ([], b) = stopped b (a ∷ more) none
offered rounds a more (x ∷ xs, b) = answered rounds a more (x ∷ xs) b

abbrev pub unanswered : Text × Buffer → Sent
unanswered ([], b) = stopped b [] none
unanswered (x ∷ xs, b) = stopped b [] (some eagain)

-- The inner loop, with sendBufSize.
unfoldable pub send_data : ℕ → List Answer → Buffer → Sent
send_data size [] b = unanswered (get_data size b)
send_data size (a ∷ more) b = offered (λ b'. send_data size more b') a more (get_data size b)

abbrev pub is_success : Answer → Bool
is_success eagain = true
is_success _ = false

-- The access log where the socket is lost.
abbrev pub marked : Answer → Buffer → Buffer
marked a b = if is_success a then b else record b { response_bytes = negsuc 0 }

abbrev pub continued : Text → ℤ → Option Finished → Option Finished
continued out bytes none = none
continued out bytes (some f) = some (record f { out = out ++ f.out; logs = bytes ∷ f.logs })

abbrev pub ended : Option Finished → List Buffer → Sent → Option Answer → Option Finished
ended rest bs r none = continued r.out r.buffer.response_bytes rest
ended rest bs r (some a) = some (record {
  success = is_success a;
  queue = bs;
  out = r.out;
  logs = r.buffer.response_bytes ∷ [];
})

-- `none` is the loop that goes on with the same buffer and nothing to send.
abbrev pub waiting : List Buffer → Sent → Option Answer → Option Finished
waiting bs r none = none
waiting bs r (some a) =
    some (record { success = is_success a; queue = marked a r.buffer ∷ bs; out = r.out; logs = [] })

-- The end of a round of the outer loop.
abbrev pub after_data : Option Finished → List Buffer → Sent → Option Finished
after_data rest bs r = if at_end r.buffer then ended rest bs r r.refused else waiting bs r r.refused

-- The outer loop.
unfoldable pub send_all : ℕ → List Answer → List Buffer → Option Finished
send_all size more [] = some (record { success = true; queue = []; out = []; logs = [] })
send_all size more (b ∷ bs) =
    let r = send_data size more b in let rest = send_all size r.answers bs in after_data rest bs r

abbrev pub with_finished : Socket → Option Finished → Option (Bool × Socket)
with_finished s none = none
with_finished s (some f) = some (
  f.success,
  record s {
    send_buf = f.queue;
    poll_out = false;
    written = s.written ++ f.out;
    access_log = s.access_log ++ f.logs;
  },
)

abbrev pub send_queue : ℕ → List Answer → Socket → List Buffer → Option (Bool × Socket)
send_queue size more s [] = some (true, record s { poll_out = true })
send_queue size more s (b ∷ bs) = with_finished s (send_all size more (b ∷ bs))

-- send()
unfoldable pub send : ℕ → List Answer → Socket → Option (Bool × Socket)
send size more s = send_queue size more s s.send_buf

-- enqueueSendData()
unfoldable pub enqueue_send_data : Buffer → Socket → Socket
enqueue_send_data b s = record s { send_buf = s.send_buf ++ b ∷ [] }
