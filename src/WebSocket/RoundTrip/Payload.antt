-- ===== src/WebSocket/RoundTrip/Payload.antt =====
-- The payload of a frame is read back and unmasked.
use tf.Base.{
  ℕ, zero, suc, ◌+◌, ◌%◌, ◌^◌, ◌<◌, min, ◌≡◌, refl, sym, ap, inl, inr, ==_refl, false, List, [],
  ◌∷◌, ◌++◌, length, get_or, arith, length-append, All, Bool-cases, ◌==◌, if◌then◌else◌,
  take-length-append, drop-length-append,
}
use tf.Base.Bits.{bit_xor_self}
use tf.Base.Bytes.{be_bytes, IsByte}
use tf.WebSocket.Frame.{Frame, header_parsed, completed}
use tf.WebSocket.Parser.{unmask, append_payload, payload_step, settle, missing}

be_bytes-IsByte : (k n : ℕ) → All IsByte (be_bytes k n)
unfolding be_bytes
be_bytes-IsByte zero n = tt
be_bytes-IsByte (suc k) n = (omega arith, be_bytes-IsByte k n)

get_or-IsByte : (bs : List ℕ) (i : ℕ) → All IsByte bs → get_or bs i 0 < 256
get_or-IsByte [] i h = omega arith
get_or-IsByte (b ∷ bs) zero h = h.0
get_or-IsByte (b ∷ bs) (suc i) h = get_or-IsByte bs i h.1

-- Masking bytes twice, under the same key and from the same position on, gives them back.
pub unmask-unmask : (key i : ℕ) (p : List ℕ) → All IsByte p → unmask key i (unmask key i p) ≡ p
unfolding unmask
unmask-unmask key i [] h = refl
unmask-unmask key i (c ∷ p) h = rw (
  bit_xor_self (get_or (be_bytes 4 key) (i % 4) 0) c
      (get_or-IsByte (be_bytes 4 key) (i % 4) (be_bytes-IsByte 4 key)) h.0,
  unmask-unmask key (i + 1) p h.1,
)

pub length-unmask : (key i : ℕ) (p : List ℕ) → length (unmask key i p) ≡ length p
unfolding unmask
length-unmask key i [] = refl
length-unmask key i (c ∷ p) = ap suc (length-unmask key (i + 1) p)

-- What a sender puts on the wire under a key; the key 0 stands for no mask.
abbrev pub masked : ℕ → List ℕ → List ℕ
masked key p = if key == 0 then p else unmask key 0 p

pub length-masked : (key : ℕ) (p : List ℕ) → length (masked key p) ≡ length p
length-masked key p = ground (arith, length-unmask key 0 p)

pub masked-nil : (key : ℕ) → masked key [] ≡ []
unfolding unmask
masked-nil key = ground arith

masked-masked : (key : ℕ) (p : List ℕ) → All IsByte p → masked key (masked key p) ≡ p
masked-masked key p h = elim (Bool-cases (key == 0)) [
  | inl e ↦ rw e
  | inr e ↦ rw e (unmask-unmask key 0 p h)
]

-- A frame whose header has been read, and the frame once its payload is there.
abbrev pub ready : ℕ → ℕ → List ℕ → Frame
ready b key p = record {
  first_byte = b;
  mask_key = key;
  payload_length = length p;
  payload = [];
  state = header_parsed;
  valid = false;
}

abbrev pub received : ℕ → ℕ → List ℕ → Frame
received b key p = record {
  first_byte = b;
  mask_key = key;
  payload_length = length p;
  payload = p;
  state = completed;
  valid = false;
}

append_payload-masked :
    (b key : ℕ) (p : List ℕ)
    → All IsByte p
    → append_payload (ready b key p) (masked key p) ≡ received b key p
unfolding append_payload
append_payload-masked b key p h = rw (masked-masked key p h, ==_refl (length p)) refl

-- All of the payload at once completes the frame.
pub payload_step-masked :
    (before : List Frame) (b key : ℕ) (p rest : List ℕ)
    → length p < 2 ^ 31
    → 0 < length p
    → All IsByte p
    → payload_step before (ready b key p) (masked key p ++ rest)
      ≡ settle before (received b key p) rest
unfolding payload_step
payload_step-masked before b key p rest small nonempty h =
    let size : min (missing (ready b key p)) (length (masked key p ++ rest)) ≡ length p =
      omega (arith, length-append (masked key p) rest, length-masked key p) in
    let whole : length p ≡ length (masked key p) = sym (length-masked key p) in
    rw
      (
        size,
        take-length-append (masked key p) rest (length p) whole,
        drop-length-append (masked key p) rest (length p) whole,
        append_payload-masked b key p h,
      )
      (ground arith)
