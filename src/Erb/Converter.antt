-- ===== src/Erb/Converter.antt =====
-- tools/tmake/erbconverter.cpp: ErbConverter::escapeNewline(), which writes a text for a literal of
-- C++.
use tf.Base.{ℕ, [], ◌∷◌, ◌++◌, if◌then◌else◌, ◌==◌}
use tf.Base.Text.{Text}

abbrev pub escape_char : ℕ → Text
escape_char c =
    if c == 92
    then 92 ∷ 92 ∷ []
    else if c == 10
    then 92 ∷ b'n' ∷ []
    else if c == 13
    then 92 ∷ b'r' ∷ []
    else if c == 34
    then 92 ∷ 34 ∷ []
    else c ∷ []

unfoldable pub escape_newline : Text → Text
escape_newline [] = []
escape_newline (c ∷ s) = escape_char c ++ escape_newline s
