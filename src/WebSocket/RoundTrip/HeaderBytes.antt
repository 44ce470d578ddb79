-- ===== src/WebSocket/RoundTrip/HeaderBytes.antt =====
-- The header of a frame is read back as it was written, with or without a mask key.
use Prim.Native.Nat.{bit_and, bit_or}
use tf.Base.{
  ℕ, ◌+◌, ◌^◌, ◌≤◌, ◌<◌, ◌≡◌, refl, sym, ◌∙◌, inl, inr, Bool, true, false, List, [], ◌∷◌, ◌++◌,
  length, take, drop, arith, length-append, Bool-cases, leb, ltb, take-length-append,
  drop-length-append,
}
use tf.Base.Bits.{zero-bit_or, 0x80-bit_or, bit_and_0x80, bit_and_0x7f}
use tf.Base.Bytes.{be_bytes, length-be_bytes, be_value-be_bytes}
use tf.WebSocket.Frame.{Frame, to_bool, wire_length}
use tf.WebSocket.Parser.{whole, read_mask, read_length, read_header}

abbrev pub mask_bit : Bool → ℕ
mask_bit true = 0x80
mask_bit false = 0

abbrev pub mask_bytes : Bool → ℕ → List ℕ
mask_bytes true key = be_bytes 4 key
mask_bytes false key = []

abbrev pub with_mask : Bool → ℕ → Frame → Frame
with_mask true key f = record f { mask_key = key }
with_mask false key f = f

-- The second byte is its mask bit and seven bits of length.
bit_or-mask_bit : (m : Bool) (n : ℕ) → n < 128 → bit_or (mask_bit m) n ≡ mask_bit m + n
bit_or-mask_bit true n h = 0x80-bit_or n h
bit_or-mask_bit false n h = zero-bit_or n h ∙ omega arith

mask_flag : (m : Bool) (n : ℕ) → n < 128 → to_bool (bit_and (bit_or (mask_bit m) n) 0x80) ≡ m
mask_flag true n h =
    rw (bit_or-mask_bit true n h, bit_and_0x80 (128 + n) (omega arith)) (ground arith)
mask_flag false n h =
    rw (bit_or-mask_bit false n h, bit_and_0x80 (0 + n) (omega arith)) (ground arith)

length_bits : (m : Bool) (n : ℕ) → n < 128 → bit_and (bit_or (mask_bit m) n) 0x7f ≡ n
length_bits true n h =
    rw (bit_or-mask_bit true n h, bit_and_0x7f (128 + n) (omega arith)) (omega arith)
length_bits false n h =
    rw (bit_or-mask_bit false n h, bit_and_0x7f (0 + n) (omega arith)) (omega arith)

-- A number at the front of the bytes, and what follows it.
pub take-be_bytes : (k n : ℕ) (rest : List ℕ) → take k (be_bytes k n ++ rest) ≡ be_bytes k n
take-be_bytes k n rest = take-length-append (be_bytes k n) rest k (sym (length-be_bytes k n))

pub drop-be_bytes : (k n : ℕ) (rest : List ℕ) → drop k (be_bytes k n ++ rest) ≡ rest
drop-be_bytes k n rest = drop-length-append (be_bytes k n) rest k (sym (length-be_bytes k n))

enough : (k n : ℕ) (rest : List ℕ) → ltb (length (be_bytes k n ++ rest)) k ≡ false
enough k n rest = ground (arith, length-append (be_bytes k n) rest, length-be_bytes k n)

read_mask-mask_bytes :
    (m : Bool) (key : ℕ) (f : Frame) (rest : List ℕ)
    → key < 2 ^ 32
    → read_mask m f (mask_bytes m key ++ rest) ≡ whole (with_mask m key f) rest
unfolding read_mask
read_mask-mask_bytes true key f rest h =
    rw
      (
        enough 4 key rest,
        take-be_bytes 4 key rest,
        drop-be_bytes 4 key rest,
        be_value-be_bytes 4 key h,
      )
      refl
read_mask-mask_bytes false key f rest h = refl

read_length-16 :
    (m : Bool) (n : ℕ) (f : Frame) (rest : List ℕ)
    → 125 < n
    → n ≤ 0xffff
    → read_length m 126 f (be_bytes 2 n ++ rest)
      ≡ read_mask m (record f { payload_length = n }) rest
unfolding read_length
read_length-16 m n f rest lo hi =
    rw
      (
        enough 2 n rest,
        take-be_bytes 2 n rest,
        drop-be_bytes 2 n rest,
        be_value-be_bytes 2 n (omega arith),
      )
      (ground arith)

read_length-64 :
    (m : Bool) (n : ℕ) (f : Frame) (rest : List ℕ)
    → 0xffff < n
    → n < 2 ^ 64
    → read_length m 127 f (be_bytes 8 n ++ rest)
      ≡ read_mask m (record f { payload_length = n }) rest
unfolding read_length
read_length-64 m n f rest lo hi =
    rw
      (
        enough 8 n rest,
        take-be_bytes 8 n rest,
        drop-be_bytes 8 n rest,
        be_value-be_bytes 8 n (omega arith),
      )
      (ground arith)

read_length-7 :
    (m : Bool) (n : ℕ) (f : Frame) (rest : List ℕ)
    → n ≤ 125
    → read_length m n f rest ≡ read_mask m (record f { payload_length = n }) rest
unfolding read_length
read_length-7 m n f rest lo = ground arith

-- The length of a payload below 2 GiB, in any of its three forms, and the mask key, if there is a
-- mask, are read back from their bytes with the first byte of the frame, whatever follows them.
pub read_header-wire_length :
    (m : Bool) (b n key : ℕ) (f : Frame) (rest : List ℕ)
    → n < 2 ^ 31
    → key < 2 ^ 32
    → read_header f (b ∷ (wire_length (mask_bit m) n ++ (mask_bytes m key ++ rest)))
      ≡ whole (with_mask m key (record f { first_byte = b; payload_length = n })) rest
unfolding read_header wire_length
read_header-wire_length m b n key f rest hn hk = elim (Bool-cases (leb n 125)) [
  | inl small ↦
      rw
        (
          small,
          mask_flag m n (ground arith),
          length_bits m n (ground arith),
          read_length-7 m n _ _ (ground arith),
        )
        (read_mask-mask_bytes m key _ rest hk)
  | inr large ↦ elim (Bool-cases (leb n 0xffff)) [
    | inl medium ↦
        rw
          (
            large,
            medium,
            mask_flag m 126 (omega arith),
            length_bits m 126 (omega arith),
            read_length-16 m n _ _ (ground arith) (ground arith),
          )
          (read_mask-mask_bytes m key _ rest hk)
    | inr big ↦
        rw
          (
            large,
            big,
            mask_flag m 127 (omega arith),
            length_bits m 127 (omega arith),
            read_length-64 m n _ _ (ground arith) (omega arith),
          )
          (read_mask-mask_bytes m key _ rest hk)
  ]
]
