-- ===== src/Erb/Tags.antt =====
-- tools/tmake/erbparser.cpp: parsePercentTag() and parse(), with the code that they write. The fuel
-- is for the loops of parse() and of parseEndPercentTag(): `none` where it runs out.
use tf.Base.{
  ℕ, zero, suc, Bool, not, ◌&&◌, ◌||◌, [], ◌∷◌, ◌++◌, Option, none, some, if◌then◌else◌, ◌==◌,
  length,
}
use tf.Base.Text.{Text, codes, is_empty, starts_with, ends_with}
use tf.Erb.Converter.{escape_newline}
use tf.Erb.Trimming.{semicolon_trim, strong_trimmed}
use tf.Erb.{
  TrimMode, trim_off, normal_trim, strong_trim, Pos, head, advance, pos_match_with, is_ascii_string,
  parse_end_percent_tag,
}

-- srcCode, incCode and the position.
pub record Parser : Type 0 where
  pub src_code : Text
  pub inc_code : Text
  pub pos : Pos

infixl 5 ◌>>=◌
abbrev pub ◌>>=◌ : {A B : Type 0} → Option A → (A → Option B) → Option B
none >>= f = none
some a >>= f = f a

abbrev pub write : Text → Parser → Parser
write t p = record p { src_code = p.src_code ++ t }

-- The four tags of values, by the statements that they write.
pub data Tag : Type 0 where
  techoex : Tag
  tehex : Tag
  echo : Tag
  escaped : Tag

unfoldable pub code_of : Tag → Text → Text
code_of techoex v = codes "techoex(" ++ v ++ codes ");\n"
code_of tehex v = codes "tehex(" ++ v ++ codes ");\n"
code_of echo v = codes "responsebody += QVariant(" ++ v ++ codes ").toString();\n"
code_of escaped v = codes "responsebody += THttpUtility::htmlEscape(" ++ v ++ codes ");\n"

unfoldable pub code_with_default : Tag → Text → Text → Text
code_with_default techoex v d = codes "techoex2(" ++ v ++ codes ", (" ++ d ++ codes "));\n"
code_with_default tehex v d = codes "tehex2(" ++ v ++ codes ", (" ++ d ++ codes "));\n"
code_with_default echo v d =
    codes "{ QString ___s = QVariant("
    ++ v
    ++ codes ").toString(); responsebody += (___s.isEmpty()) ? QVariant("
    ++ d
    ++ codes ").toString() : ___s; }\n"
code_with_default escaped v d =
    codes "{ QString ___s = QVariant("
    ++ v
    ++ codes ").toString(); responsebody += (___s.isEmpty()) ? THttpUtility::htmlEscape("
    ++ d
    ++ codes ") : THttpUtility::htmlEscape(___s); }\n"

abbrev pub start_tag_of : Tag → Text
start_tag_of techoex = codes "<%==$"
start_tag_of tehex = codes "<%=$"
start_tag_of echo = codes "<%=="
start_tag_of escaped = codes "<%="

abbrev pub with_semicolon : Text → Text
with_semicolon str =
    if not (ends_with str (b';' ∷ [])) && not (ends_with str (b'{' ∷ []))
    then str ++ b';' ∷ []
    else str

-- indexOf("<%", pos): the text before it, and the position at it.
unfoldable pub find_tag : Text → Text → Text × Option Pos
find_tag passed [] = ([], none)
find_tag passed (c ∷ s) =
    let further = find_tag (c ∷ passed) s in
    if starts_with (c ∷ s) (codes "<%")
    then ([], some (record { passed = passed; rest = c ∷ s }))
    else (c ∷ further.0, further.1)

unfoldable pub text_code : Text → Text
text_code text =
    if is_empty text
    then []
    else (if is_ascii_string text
        then codes "  responsebody += QStringLiteral(\""
        else codes "  responsebody += tr(\"")
      ++ escape_newline text
      ++ codes "\");\n"

module _ (trimmed : Text → Text) (is_space : ℕ → Bool) (mode : TrimMode) (fuel : ℕ) where
  unfoldable pub code_of_both : Tag → Text → Text → Option Text
  code_of_both tag first second = do
    v ← semicolon_trim trimmed first
    d ← semicolon_trim trimmed second
    some (code_with_default tag v d)

  unfoldable pub value_code : Tag → Text → Text → Option Text
  value_code tag first second =
      if is_empty first
      then some []
      else if is_empty second
      then semicolon_trim trimmed first >>= (λ v. some (code_of tag v))
      else code_of_both tag first second

  unfoldable pub parse_value : Tag → Pos → Parser → Option Parser
  parse_value tag p out = do
    r ← parse_end_percent_tag trimmed is_space mode fuel (start_tag_of tag) p
    code ← value_code tag r.0 r.1
    some (record out { src_code = out.src_code ++ code; pos = r.2 })

  unfoldable pub parse_include : Pos → Parser → Option Parser
  parse_include p out = do
    r ← parse_end_percent_tag trimmed is_space mode fuel (codes "<%#include") p
    some (record out { inc_code = out.inc_code ++ 35 ∷ r.0 ++ 10 ∷ []; pos = r.2 })

  unfoldable pub parse_comment : Pos → Parser → Option Parser
  parse_comment p out = do
    r ← parse_end_percent_tag trimmed is_space mode fuel (codes "<%#") p
    some (record out { src_code = out.src_code ++ codes "/*" ++ r.0 ++ codes "*/\n"; pos = r.2 })

  unfoldable pub parse_code : Pos → Parser → Option Parser
  parse_code p out = do
    r ← parse_end_percent_tag trimmed is_space mode fuel (codes "<%") p
    some (record out {
      src_code = out.src_code ++ with_semicolon (trimmed r.0) ++ 10 ∷ [];
      pos = r.2;
    })

  -- The branches behind "<%", where `p` is the position behind it and `q` the next one.
  unfoldable pub parse_tag : Pos → Pos → Parser → Option Parser
  parse_tag p q out =
      if head p.rest == b'#'
      then (if pos_match_with (codes "include ") q || pos_match_with (codes "include\t") q
          then parse_include q out
          else parse_comment q out)
      else if head p.rest == b'='
      then (if pos_match_with (codes "=$") q
          then parse_value techoex (advance 2 q) out
          else if pos_match_with (codes "$") q
          then parse_value tehex (advance 1 q) out
          else if pos_match_with (codes "=") q
          then parse_value echo (advance 1 q) out
          else parse_value escaped q out)
      else parse_code p out

  unfoldable pub parse_percent_tag : Parser → Option Parser
  parse_percent_tag out =
      if pos_match_with (codes "<%") out.pos
      then parse_tag (advance 2 out.pos) (advance 3 out.pos) (write (codes "  ") out)
      else some out

  -- What a round does with the text and the position that indexOf() finds.
  abbrev pub after : (Parser → Option Parser) → Parser → Text × Option Pos → Option Parser
  after loop out (t, none) = some (write (text_code t) out)
  after loop out (t, some p) =
      parse_percent_tag (record (write (text_code t) out) { pos = p }) >>= loop

  unfoldable pub parse_loop : ℕ → Parser → Option Parser
  parse_loop zero out = none
  parse_loop (suc rounds) out =
      let next = after (λ o. parse_loop rounds o) out (find_tag out.pos.passed out.pos.rest) in
      if is_empty out.pos.rest then some out else next

-- What strong trimming leaves of the template.
abbrev pub erb_data : (ℕ → Bool) → TrimMode → Text → Text
erb_data is_space mode erb = elim mode [
  | strong_trim ↦ strong_trimmed is_space erb
  | trim_off ↦ erb
  | normal_trim ↦ erb
]

-- parse(erb) of a new parser, with fuel for each character and one more.
unfoldable pub parse : (Text → Text) → (ℕ → Bool) → TrimMode → Text → Option Parser
parse trimmed is_space mode erb =
    let d = erb_data is_space mode erb in
    parse_loop trimmed is_space mode (suc (length d)) (suc (length d))
      (record { src_code = []; inc_code = []; pos = record { passed = []; rest = d } })
