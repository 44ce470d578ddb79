-- ===== src/Erb.antt =====
-- tools/tmake/erbparser.h and erbparser.cpp: the parser that turns a template into the text of a C++
-- function. A position in erbData is the characters that it has passed, the last one first, and
-- those that follow: erbData[pos] is the head of these, and erbData[pos - 1] the head of the others;
-- past the end a null character is read, as QCharRef does. QString::trimmed() and QChar::isSpace()
-- are parameters.
pub mod Converter
pub mod Trimming
pub mod Cutting
pub mod Tags
pub mod Termination
pub mod Literals
pub mod Rounds
pub mod Rendering
pub mod Emission
pub mod Templates
pub mod Quotes
use tf.Base.{
  ℕ, zero, suc, ◌-◌, Bool, true, false, not, ◌&&◌, ◌||◌, List, [], ◌∷◌, ◌++◌, Option, none, some,
  if◌then◌else◌, ◌==◌, leb, length, take, all,
}
use tf.Base.Text.{Text, codes, eq, is_empty, starts_with, ends_with}
use tf.Erb.Converter.{escape_newline}
use tf.Erb.Trimming.{semicolon_trim, chop, strong_trimmed}

pub data TrimMode : Type 0 where
  trim_off : TrimMode
  normal_trim : TrimMode
  strong_trim : TrimMode

pub record Pos : Type 0 where
  pub passed : Text
  pub rest : Text

-- The character at a position, and the one before it.
abbrev pub head : Text → ℕ
head [] = 0
head (c ∷ s) = c

abbrev pub step : Text → Text → Pos
step passed [] = record { passed = 0 ∷ passed; rest = [] }
step passed (c ∷ s) = record { passed = c ∷ passed; rest = s }

-- pos += n
unfoldable pub advance : ℕ → Pos → Pos
advance zero p = p
advance (suc n) p = advance n (step p.passed p.rest)

-- posMatchWith(str), for a text that is not empty
abbrev pub pos_match_with : Text → Pos → Bool
pos_match_with str p = starts_with p.rest str

unfoldable pub is_ascii_string : Text → Bool
is_ascii_string s = all (λ c. not (leb 128 c)) s

-- The loop of parseQuote(), with `quote`.
unfoldable pub quote_loop : ℕ → Text → Text → Text → Text × Pos
quote_loop m quote passed [] = (quote, record { passed = passed; rest = [] })
quote_loop m quote passed (c ∷ s) =
    if c == m && not (head passed == 92)
    then (quote ++ c ∷ [], record { passed = c ∷ passed; rest = s })
    else quote_loop m (quote ++ c ∷ []) (c ∷ passed) s

abbrev pub is_quote : ℕ → Bool
is_quote c = c == 39 || c == 34

unfoldable pub parse_quote : Pos → Text × Pos
parse_quote p =
    let m = head p.rest in
    if is_quote m then quote_loop m (m ∷ []) (advance 1 p).passed (advance 1 p).rest else ([], p)

module _ (is_space : ℕ → Bool) where
  unfoldable pub skip_loop : Pos → Text → Text → Pos
  skip_loop start passed [] = record { passed = passed; rest = [] }
  skip_loop start passed (c ∷ s) =
      if c == 10
      then record { passed = c ∷ passed; rest = s }
      else if not (is_space c) || leb 128 c
      then start
      else skip_loop start (c ∷ passed) s

  unfoldable pub skip_white_spaces_and_new_line_code : Pos → Pos
  skip_white_spaces_and_new_line_code p = skip_loop p p.passed p.rest

-- `string`, `defaultVal` and `defaultFlag`.
pub record Content : Type 0 where
  pub string : Text
  pub default_val : Text
  pub default_flag : Bool

abbrev pub add : Text → Content → Content
add t c =
    if c.default_flag
    then record c { default_val = c.default_val ++ t }
    else record c { string = c.string ++ t }

abbrev pub chopped : Content → Content
chopped c =
    if c.default_flag
    then record c { default_val = chop c.default_val }
    else record c { string = chop c.string }

-- A round that reads a quoted text or a character.
unfoldable pub read_char : Content → Pos → Content × Pos
read_char c p =
    if is_quote (head p.rest)
    then (let r = parse_quote p in (add r.0 c, r.1))
    else (add (head p.rest ∷ []) c, advance 1 p)

unfoldable pub read_content : Content → Pos → Content × Pos
read_content c p =
    if pos_match_with (codes "%|%") p
    then read_char (record c { default_flag = true }) (advance 3 p)
    else read_char c p

module _ (trimmed : Text → Text) (is_space : ℕ → Bool) (mode : TrimMode) where
  abbrev pub skips : Text → Bool
  skips start_tag = elim mode [
    | trim_off ↦ false
    | normal_trim ↦ eq start_tag (codes "<%") || starts_with start_tag (codes "<%#")
    | strong_trim ↦ eq start_tag (codes "<%") || starts_with start_tag (codes "<%#")
  ]

  -- What is done at "%>", where `last` is the character before it and `p` the position behind it.
  unfoldable pub end_tag : Text → ℕ → Content → Pos → Content × Pos
  end_tag start_tag last c p =
      if last == 45 || last == 43
      then (chopped c, if last == 45 then skip_white_spaces_and_new_line_code is_space p else p)
      else if skips start_tag
      then (c, skip_white_spaces_and_new_line_code is_space p)
      else (c, p)

  -- The loop of parseEndPercentTag(), with fuel: `none` where it runs out.
  unfoldable pub end_loop : ℕ → Text → Content → Pos → Option (Content × Pos)
  end_loop zero start_tag c p = none
  end_loop (suc fuel) start_tag c p =
      let next = read_content c p in
      let rest = end_loop fuel start_tag next.0 next.1 in
      if is_empty p.rest
      then some (c, p)
      else if pos_match_with (codes "%>") p
      then some (end_tag start_tag (head p.passed) c (advance 2 p))
      else rest

  -- The pair that parseEndPercentTag() returns, with the position.
  abbrev pub ended : Option (Content × Pos) → Option (Text × Text × Pos)
  ended none = none
  ended (some (c, q)) = some (c.string, trimmed c.default_val, q)

  unfoldable pub parse_end_percent_tag : ℕ → Text → Pos → Option (Text × Text × Pos)
  parse_end_percent_tag fuel start_tag p =
      ended
        (end_loop fuel start_tag (record { string = []; default_val = []; default_flag = false }) p)
