-- ===== src/EpollSocket/Stream.antt =====
-- What goes out of the queue of src/tepollsocket.cpp, whatever the system takes at a time.
use tf.Base.{
  ℕ, ◌<◌, ◌≡◌, refl, sym, ap, ◌∙◌, Bool, List, [], ◌∷◌, ◌++◌, Option, none, some, append_assoc,
  append-nil,
}
use tf.Base.Text.{Text}
use tf.SendBuffer.{Buffer}
use tf.SendBuffer.Reading.{pending}
use tf.EpollSocket.Queue.{pending_all, Sends, send_all-Sends, pending_all-append}
use tf.EpollSocket.{
  Answer, Socket, Finished, send_all, with_finished, send_queue, send, enqueue_send_data,
}

-- What happens to a socket: a response is put into its queue, or the system says that it can be
-- written to, with the answers to come.
pub data Event : Type 0 where
  enqueued : Buffer → Event
  writable : List Answer → Event

abbrev pub sent_socket : Option (Bool × Socket) → Option Socket
sent_socket none = none
sent_socket (some r) = some r.1

abbrev pub on_event : ℕ → Event → Socket → Option Socket
on_event size (Event.enqueued b) s = some (enqueue_send_data b s)
on_event size (Event.writable more) s = sent_socket (send size more s)

abbrev pub next_events : (Socket → Option Socket) → Option Socket → Option Socket
next_events rest none = none
next_events rest (some s) = rest s

unfoldable pub on_events : ℕ → List Event → Socket → Option Socket
on_events size [] s = some s
on_events size (ev ∷ evs) s = next_events (λ s'. on_events size evs s') (on_event size ev s)

-- The bytes of the responses that are put into the queue, as they are then.
abbrev pub queued : List Event → Text
queued [] = []
queued (Event.enqueued b ∷ evs) = pending b ++ queued evs
queued (Event.writable more ∷ evs) = queued evs

-- The bytes that have been written and that wait.
abbrev pub stream : Socket → Text
stream s = s.written ++ pending_all s.send_buf

abbrev Adds : Socket → Text → Option Socket → Type 0
Adds s t o = (s' : Socket) × (o ≡ some s') × (stream s' ≡ stream s ++ t)

with_finished-Adds :
    (s : Socket) (b : Buffer) (bs : List Buffer) (o : Option Finished)
    → s.send_buf ≡ b ∷ bs
    → Sends (b ∷ bs) o
    → Adds s [] (sent_socket (with_finished s o))
with_finished-Adds s b bs o e (f, g, h) = (
  _,
  ap (λ r. sent_socket (with_finished s r)) g,
  append_assoc s.written f.out (pending_all f.queue)
      ∙ ap (λ t. s.written ++ t) (h ∙ ap pending_all (sym e))
      ∙ sym (append-nil (stream s)),
)

send_queue-Adds :
    (size : ℕ) (more : List Answer) (s : Socket) (q : List Buffer)
    → 0 < size
    → s.send_buf ≡ q
    → Adds s [] (sent_socket (send_queue size more s q))
send_queue-Adds size more s [] p e = (_, refl, sym (append-nil (stream s)))
send_queue-Adds size more s (b ∷ bs) p e =
    with_finished-Adds s b bs (send_all size more (b ∷ bs)) e (send_all-Sends size more (b ∷ bs) p)

abbrev added : Event → Text
added (Event.enqueued b) = pending b
added (Event.writable more) = []

on_event-Adds :
    (size : ℕ) (ev : Event) (s : Socket) → 0 < size → Adds s (added ev) (on_event size ev s)
unfolding enqueue_send_data send
on_event-Adds size (Event.enqueued b) s p = (
  _,
  refl,
  ap (λ t. s.written ++ t) (pending_all-append s.send_buf b)
      ∙ sym (append_assoc s.written (pending_all s.send_buf) (pending b)),
)
on_event-Adds size (Event.writable more) s p = send_queue-Adds size more s s.send_buf p refl

queued-cons : (ev : Event) (evs : List Event) → queued (ev ∷ evs) ≡ added ev ++ queued evs
queued-cons (Event.enqueued b) evs = refl
queued-cons (Event.writable more) evs = refl

-- Whatever responses are put into the queue of a socket and whenever, and however many bytes the
-- system takes at a time, send() returns; the bytes written and those that wait are together just
-- those written and waiting before and the bytes of the responses, in their order.
pub on_events-stream :
    (size : ℕ) (evs : List Event) (s : Socket)
    → 0 < size
    → (s' : Socket) × (on_events size evs s ≡ some s') × (stream s' ≡ stream s ++ queued evs)
unfolding on_events
on_events-stream size [] s p = (s, refl, sym (append-nil (stream s)))
on_events-stream size (ev ∷ evs) s p =
    let (s1, e1, h1) = on_event-Adds size ev s p in
    let (s2, e2, h2) = on_events-stream size evs s1 p in
    (
      s2,
      ap (next_events (λ s'. on_events size evs s')) e1 ∙ e2,
      h2
          ∙ ap (λ t. t ++ queued evs) h1
          ∙ append_assoc (stream s) (added ev) (queued evs)
          ∙ ap (λ t. stream s ++ t) (sym (queued-cons ev evs)),
    )
