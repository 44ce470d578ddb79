-- ===== src/SystemBus/Stream.antt =====
-- Messages of the bus on a stream of bytes and back.
use Prim.Native.Nat.{bit_and, bit_or}
use tf.Base.{
  ℕ, zero, suc, ◌+◌, ◌^◌, ◌≤◌, ◌<◌, ◌≡◌, refl, sym, ap, ◌∙◌, true, false, List, [], ◌∷◌, ◌++◌, some,
  length, map, All, drop, ltb, lt→ltb, arith, length-append, append_assoc, append-nil,
  take-length-append, drop-length-append,
}
use tf.Base.Bytes.{be_bytes, length-be_bytes, be_value-be_bytes}
use tf.SystemBus.{
  Message, message, validate, to_byte_array, announced, message_size, payload_of, parse, recv_all,
}

-- A message that the bus carries: a known operation and a payload that an `int` can measure.
pub record IsSent (op : ℕ) (payload : List ℕ) : Type 0 where
  pub positive : 0 < op
  pub known : op ≤ 4
  pub fits : length payload + 5 < 2 ^ 31

abbrev pub wire : ℕ × List ℕ → List ℕ
wire (op, payload) = to_byte_array (message op payload)

-- The message as it is received.
abbrev pub arrived : ℕ × List ℕ → Message
arrived (op, payload) = record (message op payload) { valid = true }

-- The first byte, the length of the payload, the payload, and what follows the message.
abbrev framed : ℕ → List ℕ → List ℕ → List ℕ
framed b p rest = b ∷ (be_bytes 4 (length p) ++ (p ++ rest))

wire-framed :
    (op : ℕ) (p rest : List ℕ) → wire (op, p) ++ rest ≡ framed (message op p).first_byte p rest
unfolding to_byte_array message
wire-framed op p rest =
    ap (λ bs. bit_or 0x80 (bit_and op 0x3f) ∷ bs) (append_assoc (be_bytes 4 (length p)) p rest)

length-framed : (b : ℕ) (p rest : List ℕ) → length (framed b p rest) ≡ 5 + length p + length rest
length-framed b p rest = omega (
  arith,
  length-append (be_bytes 4 (length p)) (p ++ rest),
  length-append p rest,
  length-be_bytes 4 (length p),
)

announced-framed :
    (b : ℕ) (p rest : List ℕ) → length p < 2 ^ 32 → announced (framed b p rest) ≡ length p
unfolding announced
announced-framed b p rest h =
    let enough : ltb (length (be_bytes 4 (length p) ++ (p ++ rest))) 4 ≡ false =
      ground
        (arith, length-append (be_bytes 4 (length p)) (p ++ rest), length-be_bytes 4 (length p)) in
    rw
      (
        enough,
        take-length-append (be_bytes 4 (length p)) (p ++ rest) 4
            (sym (length-be_bytes 4 (length p))),
      )
      (be_value-be_bytes 4 (length p) (omega arith))

message_size-framed :
    (b : ℕ) (p rest : List ℕ)
    → length p + 5 < 2 ^ 32
    → message_size (framed b p rest) ≡ 5 + length p
unfolding message_size
message_size-framed b p rest h = rw (announced-framed b p rest (omega arith)) (omega arith)

drop-header : (b : ℕ) (p rest : List ℕ) → drop 5 (framed b p rest) ≡ p ++ rest
drop-header b p rest =
    drop-length-append (be_bytes 4 (length p)) (p ++ rest) 4 (sym (length-be_bytes 4 (length p)))

drop-message : (b : ℕ) (p rest : List ℕ) → drop (5 + length p) (framed b p rest) ≡ rest
drop-message b p rest =
    ap (λ bs. drop (5 + length p) (b ∷ bs)) (sym (append_assoc (be_bytes 4 (length p)) p rest))
    ∙ drop-length-append (b ∷ (be_bytes 4 (length p) ++ p)) rest (5 + length p)
        (omega (arith, length-append (be_bytes 4 (length p)) p, length-be_bytes 4 (length p)))

payload_of-framed : (b : ℕ) (p rest : List ℕ) → length p < 2 ^ 31 → payload_of (framed b p rest) ≡ p
unfolding payload_of
payload_of-framed b p rest h =
    rw (announced-framed b p rest (omega arith), lt→ltb (length p) (2 ^ 31) h, drop-header b p rest)
      (take-length-append p rest (length p) refl)

is_whole :
    (b : ℕ) (p rest : List ℕ)
    → length p + 5 < 2 ^ 31
    → ltb (length (framed b p rest)) (message_size (framed b p rest)) ≡ false
is_whole b p rest h =
    rw (length-framed b p rest, message_size-framed b p rest (omega arith)) (ground arith)

has_header : (b : ℕ) (p rest : List ℕ) → ltb (length (framed b p rest)) 5 ≡ false
has_header b p rest = rw (length-framed b p rest) (ground arith)

parse-framed :
    (b : ℕ) (p rest : List ℕ)
    → length p + 5 < 2 ^ 31
    → parse (framed b p rest)
      ≡ (validate (record { first_byte = b; payload = p; valid = false }), rest)
unfolding parse
parse-framed b p rest h = rw (
  has_header b p rest,
  is_whole b p rest h,
  payload_of-framed b p rest (omega arith),
  message_size-framed b p rest (omega arith),
  drop-message b p rest,
)

validate-sent : (op : ℕ) (p : List ℕ) → IsSent op p → validate (message op p) ≡ arrived (op, p)
unfolding validate message
validate-sent zero p h = absurd (omega (arith, h.positive))
validate-sent (suc zero) p h = refl
validate-sent (suc (suc zero)) p h = refl
validate-sent (suc (suc (suc zero))) p h = refl
validate-sent (suc (suc (suc (suc zero)))) p h = refl
validate-sent (suc (suc (suc (suc (suc op))))) p h = absurd (omega (arith, h.known))

abbrev pub IsSentOf : ℕ × List ℕ → Type 0
IsSentOf m = IsSent m.0 m.1

abbrev pub stream : List (ℕ × List ℕ) → List ℕ → List ℕ
stream [] rest = rest
stream (m ∷ ms) rest = wire m ++ stream ms rest

parse-wire :
    (op : ℕ) (p rest : List ℕ)
    → IsSent op p
    → parse (wire (op, p) ++ rest) ≡ (arrived (op, p), rest)
unfolding message
parse-wire op p rest h = rw (wire-framed op p rest) (
    parse-framed (message op p).first_byte p rest h.fits
    ∙ ap (λ m. (m, rest)) (same ∙ validate-sent op p h))
  where
    same :
        validate (record { first_byte = (message op p).first_byte; payload = p; valid = false })
        ≡ validate (message op p)
    same = refl

is_whole_wire :
    (op : ℕ) (p rest : List ℕ)
    → IsSent op p
    → ltb (length (wire (op, p) ++ rest)) (message_size (wire (op, p) ++ rest)) ≡ false
is_whole_wire op p rest h = rw (wire-framed op p rest) (is_whole _ p rest h.fits)

recv_all-from :
    (fuel : ℕ) (ms : List (ℕ × List ℕ)) (ret : List Message) (tail : List ℕ)
    → All IsSentOf ms
    → length tail < message_size tail
    → length ms < fuel
    → recv_all fuel ret (stream ms tail) ≡ some (ret ++ map arrived ms, tail)
unfolding recv_all
recv_all-from zero ms ret tail h t lt = absurd (omega arith)
recv_all-from (suc fuel) [] ret tail h t lt = rw (lt→ltb _ _ t, append-nil ret)
recv_all-from (suc fuel) ((op, p) ∷ ms) ret tail (h, hs) t lt =
    rw (is_whole_wire op p (stream ms tail) h, parse-wire op p (stream ms tail) h)
      (recv_all-from fuel ms (ret ++ arrived (op, p) ∷ []) tail hs t (omega arith)
        ∙ ap (λ xs. some (xs, tail)) (append_assoc ret (arrived (op, p) ∷ []) (map arrived ms)))

-- recvAll() takes every whole message, of a known operation and a size that an `int` holds, off the
-- front of the bytes received, in order and with its operation and payload, and leaves the bytes of
-- a message that is not yet whole.
pub recv_all-stream :
    (ms : List (ℕ × List ℕ)) (tail : List ℕ)
    → All IsSentOf ms
    → length tail < message_size tail
    → recv_all (suc (length ms)) [] (stream ms tail) ≡ some (map arrived ms, tail)
recv_all-stream ms tail h t = recv_all-from (suc (length ms)) ms [] tail h t (omega arith)
