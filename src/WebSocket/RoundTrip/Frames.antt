-- ===== src/WebSocket/RoundTrip/Frames.antt =====
-- A whole frame at the front of the received bytes takes the parser to the end of that frame.
use tf.Base.{
  ℕ, suc, ◌-◌, ◌^◌, ◌≤◌, ◌<◌, ◌≡◌, refl, ap, ◌∙◌, Bool, true, false, List, [], ◌∷◌, ◌++◌, Option,
  some, length, take, arith, length-append, All, take-append, drop-length-append, append_assoc,
}
use tf.Base.Bytes.{length-be_bytes, IsByte}
use tf.WebSocket.Frame.{Frame, new, wire_length, validate}
use tf.WebSocket.Parser.{
  Next, again, stop, Outcome, read_header, header_done, whole, after_header, empty_step,
  payload_step, settle, step, loop, accept,
}
use tf.WebSocket.RoundTrip.HeaderBytes.{mask_bit, mask_bytes, with_mask, read_header-wire_length}
use tf.WebSocket.RoundTrip.Payload.{
  masked, masked-nil, length-masked, ready, received, payload_step-masked,
}

abbrev pub key_of : Bool → ℕ → ℕ
key_of true key = key
key_of false key = 0

abbrev pub header_bytes : Bool → ℕ → ℕ → List ℕ → List ℕ
header_bytes m b key p = b ∷ (wire_length (mask_bit m) (length p) ++ mask_bytes m key)

-- A frame on the wire as the protocol lays it out: first byte, length, mask key, payload.
abbrev pub frame_bytes : Bool → ℕ → ℕ → List ℕ → List ℕ
frame_bytes m b key p = header_bytes m b key p ++ masked (key_of m key) p

length-wire_length : (mb n : ℕ) → length (wire_length mb n) ≤ 9
unfolding wire_length
length-wire_length mb n = ground (arith, length-be_bytes 2 n, length-be_bytes 8 n)

length-mask_bytes : (m : Bool) (key : ℕ) → length (mask_bytes m key) ≤ 4
length-mask_bytes true key = omega (arith, length-be_bytes 4 key)
length-mask_bytes false key = omega arith

length-header_bytes : (m : Bool) (b key : ℕ) (p : List ℕ) → length (header_bytes m b key p) ≤ 14
length-header_bytes m b key p = omega (
  arith,
  length-append (wire_length (mask_bit m) (length p)) (mask_bytes m key),
  length-wire_length (mask_bit m) (length p),
  length-mask_bytes m key,
)

abbrev header_frame : Bool → ℕ → ℕ → List ℕ → Frame
header_frame m b key p = with_mask m key (record new { first_byte = b; payload_length = length p })

read_header-header_bytes :
    (m : Bool) (b key : ℕ) (p rest : List ℕ)
    → length p < 2 ^ 31
    → key < 2 ^ 32
    → read_header new (header_bytes m b key p ++ rest) ≡ whole (header_frame m b key p) rest
read_header-header_bytes m b key p rest hn hk =
    rw (append_assoc (wire_length (mask_bit m) (length p)) (mask_bytes m key) rest)
      (read_header-wire_length m b (length p) key new rest hn hk)

after_header-whole :
    (before : List Frame) (f : Frame) (hdr body more : List ℕ)
    → after_header before (hdr ++ body) (length (hdr ++ more)) (whole f more)
      ≡ settle before (header_done f) body
unfolding after_header
after_header-whole before f hdr body more = ap (settle before (header_done f)) (
    drop-length-append hdr body (length (hdr ++ more) - length more)
      (omega (arith, length-append hdr more)))

-- The 14 bytes that are looked at hold the header and some of what follows; only the header is
-- skipped.
empty_step-whole :
    (before : List Frame) (f g : Frame) (hdr body : List ℕ)
    → length hdr ≤ 14
    → ((more : List ℕ) → read_header f (hdr ++ more) ≡ whole g more)
    → empty_step before f (hdr ++ body) ≡ settle before (header_done g) body
unfolding empty_step
empty_step-whole before f g hdr body fits reads =
    rw (take-append 14 hdr body fits, reads (take (14 - length hdr) body))
      (after_header-whole before g hdr body (take (14 - length hdr) body))

empty_step-header_bytes :
    (m : Bool) (before : List Frame) (b key : ℕ) (p body : List ℕ)
    → length p < 2 ^ 31
    → key < 2 ^ 32
    → empty_step before new (header_bytes m b key p ++ body)
      ≡ settle before (header_done (header_frame m b key p)) body
empty_step-header_bytes m before b key p body hn hk =
    empty_step-whole before new (header_frame m b key p) (header_bytes m b key p) body
      (length-header_bytes m b key p) (λ more. read_header-header_bytes m b key p more hn hk)

header_done-header_frame :
    (m : Bool) (b key : ℕ) (p : List ℕ)
    → length p < 2 ^ 31
    → 0 < length p
    → header_done (header_frame m b key p) ≡ ready b (key_of m key) p
unfolding header_done
header_done-header_frame true b key p hn h = ground arith
header_done-header_frame false b key p hn h = ground arith

header_done-no_payload :
    (m : Bool) (b key : ℕ) → header_done (header_frame m b key []) ≡ received b (key_of m key) []
unfolding header_done
header_done-no_payload true b key = refl
header_done-no_payload false b key = refl

-- Going on after a round, or ending there.
abbrev pub go_on : ℕ → Next → Option Outcome
go_on fuel (again before f bytes) = loop fuel before f bytes
go_on fuel (stop o) = some o

-- Some fuel leads to the outcome.
abbrev pub Runs : List Frame → Frame → List ℕ → Outcome → Type 0
Runs before f bytes o = (fuel : ℕ) × (loop fuel before f bytes ≡ some o)

abbrev pub RunsOn : Next → Outcome → Type 0
RunsOn n o = (fuel : ℕ) × (go_on fuel n ≡ some o)

pub loop-step :
    (fuel : ℕ) (before : List Frame) (f : Frame) (b : ℕ) (bytes : List ℕ)
    → loop (suc fuel) before f (b ∷ bytes) ≡ go_on fuel (step before f (b ∷ bytes))
unfolding loop
loop-step fuel before f b bytes = go (step before f (b ∷ bytes)) refl
  where
    go :
        (n : Next)
        → step before f (b ∷ bytes) ≡ n
        → loop (suc fuel) before f (b ∷ bytes) ≡ go_on fuel n
    go (again before' f' bytes') e = rw (e, loop)
    go (stop o) e = rw (e, loop)

loop-step_nonempty :
    (fuel : ℕ) (before : List Frame) (f : Frame) (bytes : List ℕ)
    → 0 < length bytes
    → loop (suc fuel) before f bytes ≡ go_on fuel (step before f bytes)
loop-step_nonempty fuel before f [] h = absurd (omega arith)
loop-step_nonempty fuel before f (b ∷ bytes) h = loop-step fuel before f b bytes

settle-completed :
    (before : List Frame) (b key : ℕ) (p rest : List ℕ)
    → settle before (received b key p) rest ≡ accept before (validate (received b key p)) rest
unfolding settle
settle-completed before b key p rest = refl

step-empty :
    (before : List Frame) (bytes : List ℕ) → step before new bytes ≡ empty_step before new bytes
unfolding step
step-empty before bytes = refl

step-ready :
    (before : List Frame) (b key : ℕ) (p bytes : List ℕ)
    → step before (ready b key p) bytes ≡ payload_step before (ready b key p) bytes
unfolding step
step-ready before b key p bytes = refl

settle-ready :
    (before : List Frame) (b key : ℕ) (p rest : List ℕ)
    → settle before (ready b key p) rest ≡ again before (ready b key p) rest
unfolding settle
settle-ready before b key p rest = refl

header_round :
    (m : Bool) (before : List Frame) (b key : ℕ) (p rest : List ℕ)
    → length p < 2 ^ 31
    → key < 2 ^ 32
    → step before new (frame_bytes m b key p ++ rest)
      ≡ settle before (header_done (header_frame m b key p)) (masked (key_of m key) p ++ rest)
header_round m before b key p rest hn hk =
    step-empty before (frame_bytes m b key p ++ rest)
    ∙ ap (empty_step before new)
        (append_assoc (header_bytes m b key p) (masked (key_of m key) p) rest)
    ∙ empty_step-header_bytes m before b key p (masked (key_of m key) p ++ rest) hn hk

payload_round :
    (fuel : ℕ) (before : List Frame) (b key : ℕ) (p rest : List ℕ)
    → length p < 2 ^ 31
    → 0 < length p
    → All IsByte p
    → loop (suc fuel) before (ready b key p) (masked key p ++ rest)
      ≡ go_on fuel (accept before (validate (received b key p)) rest)
payload_round fuel before b key p rest hn pos h =
    loop-step_nonempty fuel before (ready b key p) (masked key p ++ rest)
      (omega (arith, length-append (masked key p) rest, length-masked key p))
    ∙ ap (go_on fuel) (
        step-ready before b key p (masked key p ++ rest)
        ∙ payload_step-masked before b key p rest hn pos h
        ∙ settle-completed before b key p rest)

-- A frame with a payload takes two rounds, and one without takes one.
pub Runs-frame_bytes :
    (m : Bool) (before : List Frame) (b key : ℕ) (p rest : List ℕ) (o : Outcome)
    → length p < 2 ^ 31
    → key < 2 ^ 32
    → All IsByte p
    → RunsOn (accept before (validate (received b (key_of m key) p)) rest) o
    → Runs before new (frame_bytes m b key p ++ rest) o
Runs-frame_bytes m before b key [] rest o hn hk h (fuel, e) = (
  suc fuel,
  loop-step fuel before new b _
      ∙ ap (go_on fuel) (header_round m before b key [] rest hn hk)
      ∙ rw
          (
            header_done-no_payload m b key,
            masked-nil (key_of m key),
            settle-completed before b (key_of m key) [] rest,
          )
          e,
)
Runs-frame_bytes m before b key (c ∷ p) rest o hn hk h (fuel, e) = (
  suc (suc fuel),
  loop-step (suc fuel) before new b _
      ∙ ap (go_on (suc fuel)) (header_round m before b key (c ∷ p) rest hn hk)
      ∙ rw
          (
            header_done-header_frame m b key (c ∷ p) hn (omega arith),
            settle-ready before b (key_of m key) (c ∷ p) (masked (key_of m key) (c ∷ p) ++ rest),
          )
          (payload_round fuel before b (key_of m key) (c ∷ p) rest hn (omega arith) h ∙ e),
)
