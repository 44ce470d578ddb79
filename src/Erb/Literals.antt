-- ===== src/Erb/Literals.antt =====
-- ErbConverter::escapeNewline() of tools/tmake/erbconverter.cpp against a reader of the literals of
-- C++.
use tf.Base.{
  ℕ, ◌≡◌, refl, ap, ◌∙◌, append_assoc, Bool, true, false, [], ◌∷◌, ◌++◌, Option, none, some,
  if◌then◌else◌, ◌==◌, arith,
}
use tf.Base.Text.{Text}
use tf.Erb.Converter.{escape_char, escape_newline}

-- The simple escape sequences that the program writes.
abbrev pub unescape : ℕ → Option ℕ
unescape c =
    if c == b'n'
    then some 10
    else if c == b'r'
    then some 13
    else if c == 34
    then some 34
    else if c == 92
    then some 92
    else none

abbrev pub put_first : ℕ → Option (Text × Text) → Option (Text × Text)
put_first c none = none
put_first c (some (s, rest)) = some (c ∷ s, rest)

-- A compiler that reads a literal behind its opening quote: the text, and what follows the closing
-- quote. The flag is set behind a backslash.
unfoldable pub read_literal : Bool → Text → Option (Text × Text)
read_literal escaped [] = none
read_literal true (c ∷ s) =
    let rest = read_literal false s in elim (unescape c) [ none ↦ none | some d ↦ put_first d rest ]
read_literal false (c ∷ s) =
    let rest = put_first c (read_literal false s) in
    let sequence = read_literal true s in
    if c == 34 then some ([], s) else if c == 92 then sequence else if c == 10 then none else rest

read_literal-escape_char :
    (c : ℕ) (t s rest : Text)
    → read_literal false s ≡ some (t, rest)
    → read_literal false (escape_char c ++ s) ≡ some (c ∷ t, rest)
unfolding read_literal
read_literal-escape_char c t s rest h = ground arith

-- The text that is written between the quotes of a literal is read back by C++ as it was.
pub read_literal-escape_newline :
    (t rest : Text) → read_literal false (escape_newline t ++ 34 ∷ rest) ≡ some (t, rest)
unfolding escape_newline read_literal
read_literal-escape_newline [] rest = refl
read_literal-escape_newline (c ∷ t) rest =
    ap (read_literal false) (append_assoc (escape_char c) (escape_newline t) (34 ∷ rest))
    ∙ read_literal-escape_char c t (escape_newline t ++ 34 ∷ rest) rest
        (read_literal-escape_newline t rest)
