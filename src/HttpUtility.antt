-- ===== src/HttpUtility.antt =====
-- src/thttputility.cpp: the escapes of texts for HTML and JSON, and the decoder of words in MIME. The
-- codecs and the decoder of base 64 are those of Qt, and parameters.
pub mod Reasons
pub mod Escaping
pub mod Words
use tf.Base.{
  ℕ, Bool, true, false, ◌||◌, List, [], ◌∷◌, ◌++◌, Option, none, some, if◌then◌else◌, ◌==◌, drop,
}
use tf.Base.Text.{Text, codes, eq, is_empty, starts_with, split_at, index_of_text}

pub data EscapeFlag : Type 0 where
  compatible : EscapeFlag
  quotes : EscapeFlag
  no_quotes : EscapeFlag

abbrev pub escapes_double : EscapeFlag → Bool
escapes_double compatible = true
escapes_double quotes = true
escapes_double no_quotes = false

abbrev pub escapes_single : EscapeFlag → Bool
escapes_single compatible = false
escapes_single quotes = true
escapes_single no_quotes = false

unfoldable pub html_char : EscapeFlag → ℕ → Text
html_char flag c =
    if c == b'&'
    then codes "&amp;"
    else if c == b'<'
    then codes "&lt;"
    else if c == b'>'
    then codes "&gt;"
    else if c == 34
    then (if escapes_double flag then codes "&quot;" else c ∷ [])
    else if c == 39
    then (if escapes_single flag then codes "&#039;" else c ∷ [])
    else c ∷ []

unfoldable pub html_escape : EscapeFlag → Text → Text
html_escape flag [] = []
html_escape flag (c ∷ s) = html_char flag c ++ html_escape flag s

unfoldable pub json_char : ℕ → Text
json_char c =
    if c == b'&'
    then codes "\\u0026"
    else if c == b'<'
    then codes "\\u003C"
    else if c == b'>'
    then codes "\\u003E"
    else c ∷ []

unfoldable pub json_escape : Text → Text
json_escape [] = []
json_escape (c ∷ s) = json_char c ++ json_escape s

-- A codec by its name, as what toUnicode() and fromUnicode() do, and the two functions of base 64.
pub record Codec : Type 0 where
  pub name : Text
  pub to_unicode : Text → Text
  pub from_unicode : Text → Text

pub record Mime : Type 0 where
  pub codec_for_name : Text → Option Codec
  pub from_base64 : Text → Text
  pub to_base64 : Text → Text

-- toMimeEncoded() with a codec that is not ISO-2022-JP.
unfoldable pub to_mime_encoded : Mime → Codec → Text → Text
to_mime_encoded m codec input =
    codes "=?"
    ++ (codec.name ++ (codes "?B?" ++ (m.to_base64 (codec.from_unicode input) ++ codes "?=")))

-- indexOf("?=", i) > i
abbrev pub is_later : Option ℕ → Bool
is_later none = false
is_later (some k) = if k == 0 then false else true

-- The end of fromMimeEncoded(), behind the second question mark. The length that mid() is given is
-- not positive, so that all that follows is taken.
unfoldable pub mime_text : Mime → Codec → Text → Text → Text
mime_text m codec enc rest =
    if is_later (index_of_text (codes "?=") rest)
    then (if eq enc (codes "B") || eq enc (codes "b")
        then codec.to_unicode (m.from_base64 rest)
        else [])
    else []

abbrev pub with_encoding : Mime → Codec → Text × Option Text → Text
with_encoding m codec (enc, none) = []
with_encoding m codec (enc, some rest) = if is_empty enc then [] else mime_text m codec enc rest

abbrev pub with_codec : Mime → Option Codec → Text → Text
with_codec m none rest = []
with_codec m (some codec) rest = with_encoding m codec (split_at b'?' rest)

abbrev pub with_charset : Mime → Text × Option Text → Text
with_charset m (encoding, none) = []
with_charset m (encoding, some rest) =
    if is_empty encoding then [] else with_codec m (m.codec_for_name encoding) rest

unfoldable pub from_mime_encoded : Mime → Text → Text
from_mime_encoded m mime =
    if starts_with mime (codes "=?") then with_charset m (split_at b'?' (drop 2 mime)) else []
