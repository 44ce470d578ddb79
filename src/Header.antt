-- ===== src/Header.antt =====
-- src/tinternetmessageheader.h and src/tinternetmessageheader.cpp: the fields of a header of a mail
-- or of HTTP. A value is a byte array that may be null, which is none. The comparison qstricmp()
-- and trimmed() are functions of Qt, and parameters.
use mathlib.Core.Option
use tf.Base.{
  ℕ, zero, suc, ◌+◌, ◌-◌, ◌≡◌, Bool, true, false, not, ◌&&◌, ◌||◌, List, [], ◌∷◌, ◌++◌, Option,
  none, some, length, map, drop, get_or, ltb, ◌==◌, if◌then◌else◌,
}
use tf.Base.Text.{Text, codes, is_empty, mid, index_of, index_of_text}
pub mod Lookup
pub mod Parsing

-- RawHeaderPair and headerPairList
abbrev pub Pair : Type 0
Pair = Text × Option Text

abbrev pub Header : Type 0
Header = List Pair

abbrev pub is_null : Option Text → Bool
is_null none = true
is_null (some v) = false

-- A null byte array counts as an empty one.
abbrev pub bytes_of : Option Text → Text
bytes_of none = []
bytes_of (some v) = v

abbrev pub crlf : Text
crlf = 13 ∷ 10 ∷ []

-- qstricmp(a, b) == 0
module _ (same_key : Text → Text → Bool) where
  unfoldable pub raw_header : Text → Header → Option Text
  raw_header key [] = none
  raw_header key ((k, v) ∷ h) = if same_key k key then v else raw_header key h

  unfoldable pub has_raw_header : Text → Header → Bool
  has_raw_header key h = not (is_null (raw_header key h))

  -- The loop of setRawHeader(): the first entry gets the value, and later ones are removed.
  unfoldable pub override : Text → Option Text → Header → Header
  override key val [] = []
  override key none ((k, v) ∷ h) =
      if same_key k key then override key none h else (k, v) ∷ override key none h
  override key (some val) ((k, v) ∷ h) =
      if same_key k key
      then (k, some val) ∷ override key none h
      else (k, v) ∷ override key (some val) h

  unfoldable pub set_raw_header : Text → Option Text → Header → Header
  set_raw_header key value h =
      if has_raw_header key h then override key value h else h ++ (key, value) ∷ []

  unfoldable pub remove_all_raw_headers : Text → Header → Header
  remove_all_raw_headers key [] = []
  remove_all_raw_headers key ((k, v) ∷ h) =
      if same_key k key then remove_all_raw_headers key h else (k, v) ∷ remove_all_raw_headers key h

  unfoldable pub remove_raw_header : Text → Header → Header
  remove_raw_header key [] = []
  remove_raw_header key ((k, v) ∷ h) =
      if same_key k key then h else (k, v) ∷ remove_raw_header key h

unfoldable pub raw_header_list : Header → List Text
raw_header_list h = map (λ p. p.0) h

unfoldable pub add_raw_header : Text → Option Text → Header → Header
add_raw_header key value h = if is_empty key || is_null value then h else h ++ (key, value) ∷ []

unfoldable pub lines_of : Header → Text
lines_of [] = []
lines_of ((k, v) ∷ h) = k ++ (codes ": " ++ (bytes_of v ++ (crlf ++ lines_of h)))

unfoldable pub to_byte_array : Header → Text
to_byte_array h = lines_of h ++ crlf

-- indexOf(c, from)
unfoldable pub index_from : ℕ → Text → ℕ → Option ℕ
index_from c s from = Option.map (λ n. from + n) (index_of c (drop from s))

abbrev pub or_else : ℕ → Option ℕ → ℕ
or_else n none = n
or_else n (some m) = m

-- The length of the header without the empty line and what follows it.
unfoldable pub header_len : Text → ℕ
header_len header = or_else (length header) (index_of_text (crlf ++ crlf) header)

-- A line that begins with a space or a tab goes on with the value.
abbrev pub goes_on : Text → ℕ → ℕ → Bool
goes_on header len i = ltb i len && (get_or header i 0 == b' ' || get_or header i 0 == b'\t')

module _ (trimmed : Text → Text) where
  abbrev pub value_line : Text → Text → ℕ → ℕ → Text
  value_line header value j i =
      (if is_empty value then value else value ++ b' ' ∷ []) ++ trimmed (mid header j (i - j))

  -- The inner loop of parse(): the value, and the position of the next line.
  unfoldable pub parse_value : ℕ → Text → ℕ → Text → ℕ → Option (Text × ℕ)
  parse_value zero header len value j = none
  parse_value (suc fuel) header len value j =
      let i = or_else (length header) (index_from 10 header j) in
      let more = parse_value fuel header len (value_line header value j i) (i + 1) in
      if goes_on header len (i + 1) then more else some (value_line header value j i, i + 1)

  unfoldable pub add_field :
      (Header → ℕ → Option Header) → Header → Text → Option (Text × ℕ) → Option Header
  add_field again pairs field none = none
  add_field again pairs field (some (value, i)) = again (pairs ++ (field, some value) ∷ []) i

  unfoldable pub field_at :
      (Header → ℕ → Option Header) → Header → Text → ℕ → ℕ → Option ℕ → Option Header
  field_at again pairs header len i none = some pairs
  field_at again pairs header len i (some j) =
      add_field again pairs (trimmed (mid header i (j - i)))
        (parse_value (suc (length header)) header len [] (j + 1))

  -- The outer loop; none where the fuel runs out.
  unfoldable pub parse_fields : ℕ → Text → ℕ → Header → ℕ → Option Header
  parse_fields zero header len pairs i = if ltb i len then none else some pairs
  parse_fields (suc fuel) header len pairs i =
      let again : Header → ℕ → Option Header =
        λ pairs' i'. parse_fields fuel header len pairs' i' in
      if ltb i len then field_at again pairs header len i (index_from b':' header i) else some pairs

  -- parse(header), which adds to the fields that are there.
  unfoldable pub parse : Text → Header → Option Header
  parse header pairs = parse_fields (length header) header (header_len header) pairs 0
