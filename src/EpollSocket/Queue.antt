-- ===== src/EpollSocket/Queue.antt =====
-- What send() of src/tepollsocket.cpp leaves in the queue.
use tf.Base.{
  ℕ, suc, ◌<◌, ◌≡◌, refl, sym, ap, ◌∙◌, Bool, true, false, List, [], ◌∷◌, ◌++◌, ◌&&◌, Option, none,
  some, leb, take, length, min, arith, Bool-cases, inl, inr, leb→le, append_assoc, append-nil,
}
use tf.Base.Text.{Text, is_empty}
use tf.SendBuffer.{Buffer, File, file_at_end, at_end, get_data}
use tf.SendBuffer.Reading.{pending, file_bytes, drop_all, Given, take-seek_data, get_data-Given}
use tf.EpollSocket.{
  Answer, sent, Sent, Finished, advanced, answered, offered, unanswered, send_data, ended, waiting,
  marked, is_success, continued, after_data, send_all,
}

abbrev pub pending_all : List Buffer → Text
pending_all [] = []
pending_all (b ∷ bs) = pending b ++ pending_all bs

-- The inner loop ends without an error only at the end of the buffer.
abbrev AtEnd : Option Answer → Buffer → Type 0
AtEnd none b = at_end b ≡ true
AtEnd (some a) b = Unit {0}

-- What the inner loop has sent and what is left are together what was left before.
record Passed (before : Buffer) (r : Sent) : Type 0 where
  same : r.out ++ pending r.buffer ≡ pending before
  at_last : AtEnd r.refused r.buffer

unanswered-Passed : (b : Buffer) (r : Text × Buffer) → Given b r → Passed b (unanswered r)
unanswered-Passed b ([], b') g = record { same = g.same; at_last = g.at_last refl }
unanswered-Passed b (x ∷ xs, b') g = record { same = g.same; at_last = tt }

answered-Passed :
    (rounds : Buffer → Sent)
    → ((b' : Buffer) → Passed b' (rounds b'))
    → (b : Buffer) (a : Answer) (more : List Answer) (bytes : Text) (b' : Buffer)
    → Given b (bytes, b')
    → Passed b (answered rounds a more bytes b')
answered-Passed rounds h b (sent n) more bytes b' g =
    let k = min (suc n) (length bytes) in
    let r = rounds (advanced k b') in
    let p = h (advanced k b') in
    record {
      same =
          append_assoc (take k bytes) r.out (pending r.buffer)
          ∙ ap (λ l. take k bytes ++ l) p.same
          ∙ take-seek_data k bytes g.rest b' g.prefix (omega arith)
          ∙ g.same;
      at_last = p.at_last;
    }
answered-Passed rounds h b a more bytes b' g = record { same = g.same; at_last = tt }

offered-Passed :
    (rounds : Buffer → Sent)
    → ((b' : Buffer) → Passed b' (rounds b'))
    → (b : Buffer) (a : Answer) (more : List Answer) (r : Text × Buffer) → Given b r
    → Passed b (offered rounds a more r)
offered-Passed rounds h b a more ([], b') g = record { same = g.same; at_last = g.at_last refl }
offered-Passed rounds h b a more (x ∷ xs, b') g = answered-Passed rounds h b a more (x ∷ xs) b' g

send_data-Passed :
    (size : ℕ) (more : List Answer) (b : Buffer) → 0 < size → Passed b (send_data size more b)
unfolding send_data
send_data-Passed size [] b p = unanswered-Passed b (get_data size b) (get_data-Given size b p)
send_data-Passed size (a ∷ more) b p =
    offered-Passed (λ b'. send_data size more b') (λ b'. send_data-Passed size more b' p) b a more
      (get_data size b) (get_data-Given size b p)

empty_text : (t : Text) → is_empty t ≡ true → t ≡ []
empty_text [] h = refl
empty_text (c ∷ t) h = absurd (ground arith)

no_file_bytes : (o : Option File) → file_at_end o ≡ true → file_bytes o ≡ []
no_file_bytes none h = refl
no_file_bytes (some f) h = elim (Bool-cases f.fails) [
  | inl q ↦ rw q refl
  | inr q ↦ rw q (empty_text f.unread h)
]

both_true : (a c : Bool) → (a && c) ≡ true → (a ≡ true) × (c ≡ true)
both_true true c h = (refl, h)
both_true false c h = absurd (ground arith)

nothing_pending : (b : Buffer) → at_end b ≡ true → pending b ≡ []
unfolding at_end
nothing_pending b h =
    let (memory, file) =
      both_true (leb (length b.array_buffer) b.start_pos) (file_at_end b.body_file) h in
    rw (drop_all b.start_pos b.array_buffer (leb→le _ _ memory), no_file_bytes b.body_file file)
      refl

pending-marked : (a : Answer) (b : Buffer) → pending (marked a b) ≡ pending b
pending-marked a b = elim (Bool-cases (is_success a)) [ inl q ↦ rw q refl | inr q ↦ rw q refl ]

-- send() returns, and what it has sent and what is still in the queue are together what was there.
abbrev pub Sends : List Buffer → Option Finished → Type 0
Sends q o = (f : Finished) × (o ≡ some f) × (f.out ++ pending_all f.queue ≡ pending_all q)

ended-Sends :
    (rest : Option Finished) (b : Buffer) (bs : List Buffer) (r : Sent) (o : Option Answer)
    → r.out ≡ pending b
    → Sends bs rest
    → Sends (b ∷ bs) (ended rest bs r o)
ended-Sends rest b bs r none e (f, g, h) = (
  record f { out = r.out ++ f.out; logs = r.buffer.response_bytes ∷ f.logs },
  ap (continued r.out r.buffer.response_bytes) g,
  append_assoc r.out f.out (pending_all f.queue) ∙ rw (e, h) refl,
)
ended-Sends rest b bs r (some a) e s = (_, refl, rw e refl)

waiting-Sends :
    (b : Buffer) (bs : List Buffer) (r : Sent) (o : Option Answer)
    → at_end r.buffer ≡ false
    → AtEnd o r.buffer
    → r.out ++ pending r.buffer ≡ pending b
    → Sends (b ∷ bs) (waiting bs r o)
waiting-Sends b bs r none e l h = absurd (let z : true ≡ false = sym l ∙ e in cc)
waiting-Sends b bs r (some a) e l h = (
  _,
  refl,
  ap (λ t. r.out ++ (t ++ pending_all bs)) (pending-marked a r.buffer)
      ∙ sym (append_assoc r.out (pending r.buffer) (pending_all bs))
      ∙ ap (λ t. t ++ pending_all bs) h,
)

after_data-Sends :
    (rest : Option Finished) (b : Buffer) (bs : List Buffer) (r : Sent)
    → Passed b r
    → Sends bs rest
    → Sends (b ∷ bs) (after_data rest bs r)
after_data-Sends rest b bs r p s = elim (Bool-cases (at_end r.buffer)) [
  | inl q ↦
      let all_sent : r.out ≡ pending b =
        sym (append-nil r.out) ∙ ap (λ t. r.out ++ t) (sym (nothing_pending r.buffer q)) ∙ p.same in
      rw q (ended-Sends rest b bs r r.refused all_sent s)
  | inr q ↦ rw q (waiting-Sends b bs r r.refused q p.at_last p.same)
]

pub send_all-Sends :
    (size : ℕ) (more : List Answer) (q : List Buffer) → 0 < size → Sends q (send_all size more q)
unfolding send_all
send_all-Sends size more [] p = (_, refl, refl)
send_all-Sends size more (b ∷ bs) p =
    let r = send_data size more b in
    after_data-Sends (send_all size r.answers bs) b bs r (send_data-Passed size more b p)
      (send_all-Sends size r.answers bs p)

pub pending_all-append :
    (q : List Buffer) (b : Buffer) → pending_all (q ++ b ∷ []) ≡ pending_all q ++ pending b
pending_all-append [] b = append-nil (pending b)
pending_all-append (c ∷ q) b =
    ap (λ t. pending c ++ t) (pending_all-append q b)
    ∙ sym (append_assoc (pending c) (pending_all q) (pending b))
