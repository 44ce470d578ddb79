-- ===== src/Redis.antt =====
-- src/tredisdriver.h and src/tredisdriver.cpp: requests to a Redis server and the parser of its
-- replies. The buffer and the position in it are the state; a function that sets `*ok` to false
-- returns none. The conversions between numbers and decimal texts are those of QByteArray, which
-- are no part of the repository: they are parameters.
use tf.Base.{
  ℕ, zero, suc, ◌+◌, ◌^◌, ◌<◌, ◌≡◌, ◌≢◌, Bool, true, false, ◌&&◌, List, [], ◌∷◌, ◌++◌, Option, none,
  some, map, length, take, drop, get_or, leb, ◌==◌, if◌then◌else◌, All,
}
use mathlib.Core.Option
use tf.Base.Text.{Text}
use tf.Base.Int.{ℤ, pos, negsuc}
pub mod Laws
pub mod Arrays
pub mod Request
pub mod Termination

-- QByteArray::number() and toInt().
pub record Decimal : Type 0 where
  pub number : ℕ → Text
  pub to_int : Text → ℤ

abbrev pub cr : ℕ
cr = 13

abbrev pub lf : ℕ
lf = 10

-- What the documentation says of them: a number that an `int` holds is read back from its text,
-- which has no line end in it.
pub record IsDecimal (dec : Decimal) : Type 0 where
  pub to_int-number : (n : ℕ) → n < 2 ^ 31 → dec.to_int (dec.number n) ≡ pos n
  pub no_cr : (n : ℕ) → All (λ c. c ≢ cr) (dec.number n)

-- The members _buffer and _pos.
pub record Driver : Type 0 where
  pub buffer : Text
  pub pos : ℕ

-- A reply: a number, a text or null, or an array of replies.
mutual
  pub data Reply : Type 0 where
    integer : ℤ → Reply
    bulk : Option Text → Reply
    array : Replies → Reply

  pub data Replies : Type 0 where
    nil : Replies
    cons : Reply → Replies → Replies

abbrev pub add : Replies → Reply → Replies
add nil r = cons r nil
add (cons x xs) r = cons x (add xs r)

abbrev pub count : Replies → ℕ
count nil = 0
count (cons x xs) = suc (count xs)

-- indexOf(CRLF), in the text from a position on.
unfoldable pub index_of_crlf : Text → Option ℕ
index_of_crlf [] = none
index_of_crlf (c ∷ []) = none
index_of_crlf (c ∷ d ∷ s) =
    if c == cr && d == lf then some 0 else Option.map suc (index_of_crlf (d ∷ s))

abbrev pub unread : Driver → Text
unread d = drop d.pos d.buffer

abbrev pub advance : Driver → ℕ → Driver
advance d n = record d { pos = d.pos + n }

-- getLine(): the length given to mid() is a position in the buffer.
line_of : Driver → Option ℕ → Option Text × Driver
line_of d none = (none, d)
line_of d (some i) = (some (take (d.pos + i) (unread d)), advance d (i + 2))

unfoldable pub get_line : Driver → Option Text × Driver
unfolding line_of
get_line d = line_of d (index_of_crlf (unread d))

unfoldable pub clear_buffer : Driver → Driver
clear_buffer d = record d { buffer = []; pos = 0 }

-- What the elements of an array come to.
pub data Parsed : Type 0 where
  failed : Parsed
  parsed : Replies → Driver → Parsed

-- count >= n, for a number of elements that may be negative.
abbrev pub reached : ℤ → ℕ → Bool
reached (pos n) m = leb n m
reached (negsuc n) m = true

module _ (dec : Decimal) where
  open dec use {number, to_int}

  unfoldable pub number_of : Driver → Option ℕ → Option ℤ × Driver
  number_of d none = (none, d)
  number_of d (some i) = (some (to_int (take i (unread d))), advance d (i + 2))

  unfoldable pub get_number : Driver → Option ℤ × Driver
  unfolding number_of
  get_number d = number_of d (index_of_crlf (unread d))

  -- The text of the announced length; the position goes back to the start on a failure.
  unfoldable pub bulk_of : Driver → Option ℤ × Driver → Option (Option Text) × Driver
  bulk_of start (none, d) = (none, start)
  bulk_of start (some (negsuc zero), d) = (some none, d)
  bulk_of start (some (negsuc (suc n)), d) = (none, start)
  bulk_of start (some (pos len), d) =
      if leb (d.pos + 2) (length d.buffer)
      then (some (some (take len (unread d))), advance d (len + 2))
      else (none, start)

  unfoldable pub parse_bulk_string : Driver → Option (Option Text) × Driver
  parse_bulk_string d = bulk_of d (get_number (advance d 1))

  -- What follows an element: the loop goes on unless the array is full.
  unfoldable pub go_on :
      ℤ → Option Replies × Driver → (Replies → Driver → Option Parsed) → Option Parsed
  go_on n (none, d) more = some failed
  go_on n (some lst, d) more = if reached n (count lst) then some (parsed lst d) else more lst d

  abbrev pub add_bulk : Replies → Option (Option Text) × Driver → Option Replies × Driver
  add_bulk lst (none, d) = (none, d)
  add_bulk lst (some str, d) = (some (add lst (bulk str)), d)

  abbrev pub add_integer : Replies → Option ℤ × Driver → Option Replies × Driver
  add_integer lst (none, d) = (none, d)
  add_integer lst (some num, d) = (some (add lst (integer num)), d)

  unfoldable pub nested : (ℤ → Driver → Option Parsed) → Option ℤ × Driver → Option Parsed
  nested elements (none, d) = some failed
  nested elements (some n, d) = elements n d

  unfoldable pub add_array :
      ℤ → Replies → (Replies → Driver → Option Parsed) → Option Parsed → Option Parsed
  add_array n lst more none = none
  add_array n lst more (some failed) = some failed
  add_array n lst more (some (parsed var d)) = go_on n (some (add lst (array var)), d) more

  -- The loop of parseArray() after the count, with nested arrays; none where the fuel runs out.
  unfoldable pub elements : ℕ → ℤ → Replies → Driver → Option Parsed
  elements zero n lst d = none
  elements (suc fuel) n lst d =
      let more : Replies → Driver → Option Parsed = λ lst' d'. elements fuel n lst' d' in
      let inner : ℤ → Driver → Option Parsed = λ n' d'. elements fuel n' nil d' in
      let c = get_or d.buffer d.pos 0 in
      if c == b'$'
      then go_on n (add_bulk lst (parse_bulk_string d)) more
      else if c == b':'
      then go_on n (add_integer lst (get_number (advance d 1))) more
      else if c == b'*'
      then add_array n lst more (nested inner (get_number (advance d 1)))
      else some failed

  -- parseArray(): one unit of fuel for each byte, and one for the end.
  unfoldable pub parse_array : Driver → Option Parsed
  parse_array d =
      nested (λ n d'. elements (suc (length d.buffer)) n nil d') (get_number (advance d 1))

  unfoldable pub to_bulk : Text → Text
  to_bulk data' = b'$' ∷ (number (length data') ++ (cr ∷ lf ∷ (data' ++ (cr ∷ lf ∷ []))))

  unfoldable pub to_bulks : List Text → Text
  to_bulks [] = []
  to_bulks (d ∷ ds) = to_bulk d ++ to_bulks ds

  unfoldable pub to_multi_bulk : List Text → Text
  to_multi_bulk ds = b'*' ∷ (number (length ds) ++ (cr ∷ lf ∷ to_bulks ds))
