-- ===== src/HttpUtility/Escaping.antt =====
-- htmlEscape() and jsonEscape() of src/thttputility.cpp against a reader of HTML and the characters
-- that a page may not have.
use tf.Base.{
  ℕ, zero, suc, ◌≡◌, refl, ap, ◌∙◌, Bool, true, not, ◌&&◌, [], ◌∷◌, ◌++◌, if◌then◌else◌, ◌==◌, all,
  arith,
}
use tf.Base.Text.{Text, codes, starts_with}
use tf.HttpUtility.{
  EscapeFlag, compatible, quotes, no_quotes, escapes_double, escapes_single, html_char, html_escape,
  json_char, json_escape,
}

-- The character that a text stands for at its start in HTML, and how many characters of it follow.
unfoldable pub entity : ℕ → Text → ℕ × ℕ
entity c s =
    if c == b'&'
    then (if starts_with s (codes "amp;")
        then (b'&', 4)
        else if starts_with s (codes "lt;")
        then (b'<', 3)
        else if starts_with s (codes "gt;")
        then (b'>', 3)
        else if starts_with s (codes "quot;")
        then (34, 5)
        else if starts_with s (codes "#039;")
        then (39, 5)
        else (c, 0))
    else (c, 0)

-- A browser that reads the text of a page, with the characters still to be skipped.
unfoldable pub read_html : ℕ → Text → Text
read_html k [] = []
read_html (suc k) (c ∷ s) = read_html k s
read_html zero (c ∷ s) = (entity c s).0 ∷ read_html (entity c s).1 s

-- Characters that a page, or a value between quotes in it, may not have.
abbrev pub is_safe : EscapeFlag → ℕ → Bool
is_safe flag c =
    not (c == b'<')
    && (not (c == b'>')
        && (not (escapes_double flag && c == 34) && not (escapes_single flag && c == 39)))

read_html-html_char :
    (flag : EscapeFlag) (c : ℕ) (s : Text) → read_html 0 (html_char flag c ++ s) ≡ c ∷ read_html 0 s
unfolding read_html html_char entity starts_with
read_html-html_char compatible c s = ground arith
read_html-html_char quotes c s = ground arith
read_html-html_char no_quotes c s = ground arith

all-append : (p : ℕ → Bool) (s t : Text) → all p s ≡ true → all p t ≡ true → all p (s ++ t) ≡ true
all-append p [] t h k = k
all-append p (c ∷ s) t h k = ground (arith, all-append p s t)

html_char-is_safe : (flag : EscapeFlag) (c : ℕ) → all (is_safe flag) (html_char flag c) ≡ true
unfolding html_char
html_char-is_safe compatible c = ground arith
html_char-is_safe quotes c = ground arith
html_char-is_safe no_quotes c = ground arith

-- What htmlEscape() writes has no angle brackets and none of the quotes that the flag stands for,
-- and a browser reads the text back from it.
pub read_html-html_escape :
    (flag : EscapeFlag) (t : Text)
    → (read_html 0 (html_escape flag t) ≡ t) × (all (is_safe flag) (html_escape flag t) ≡ true)
unfolding html_escape read_html
read_html-html_escape flag [] = (refl, refl)
read_html-html_escape flag (c ∷ t) =
    let (read, safe) = read_html-html_escape flag t in
    (
      read_html-html_char flag c (html_escape flag t) ∙ ap (λ s. c ∷ s) read,
      all-append (is_safe flag) (html_char flag c) (html_escape flag t) (html_char-is_safe flag c)
          safe,
    )

abbrev pub is_json_safe : ℕ → Bool
is_json_safe c = not (c == b'&') && (not (c == b'<') && not (c == b'>'))

json_char-is_json_safe : (c : ℕ) → all is_json_safe (json_char c) ≡ true
unfolding json_char
json_char-is_json_safe c = ground arith

json_char-safe : (c : ℕ) → is_json_safe c ≡ true → json_char c ≡ c ∷ []
unfolding json_char
json_char-safe c h = ground arith

json_escape-safe : (t : Text) → all is_json_safe t ≡ true → json_escape t ≡ t
unfolding json_escape
json_escape-safe [] h = refl
json_escape-safe (c ∷ t) h = rw (json_char-safe c (ground arith), json_escape-safe t (ground arith))

json_escape-is_json_safe : (t : Text) → all is_json_safe (json_escape t) ≡ true
unfolding json_escape
json_escape-is_json_safe [] = refl
json_escape-is_json_safe (c ∷ t) =
    all-append is_json_safe (json_char c) (json_escape t) (json_char-is_json_safe c)
      (json_escape-is_json_safe t)

-- What jsonEscape() writes has no ampersand and no angle brackets, and a second call of it changes
-- nothing.
pub json_escape-twice :
    (t : Text)
    → (all is_json_safe (json_escape t) ≡ true) × (json_escape (json_escape t) ≡ json_escape t)
json_escape-twice t =
    (json_escape-is_json_safe t, json_escape-safe (json_escape t) (json_escape-is_json_safe t))
