-- ===== src/Tests/Escapes.antt =====
-- Runs of the code of src/thttputility.cpp.
use tf.Base.{◌≡◌, refl, true, none, some, all, if◌then◌else◌}
use tf.Base.Text.{codes, eq}
use tf.HttpUtility.{quotes, html_escape, html_char, json_escape, json_char, Codec, Mime}
use tf.HttpUtility.Escaping.{read_html, is_safe, read_html-html_escape}

html_escape-script :
    html_escape quotes (codes "<a href='x'>\"&\"</a>")
    ≡ codes "&lt;a href=&#039;x&#039;&gt;&quot;&amp;&quot;&lt;/a&gt;"
unfolding html_escape html_char
html_escape-script = refl

json_escape-tag : json_escape (codes "\"<b>\"") ≡ codes "\"\\u003Cb\\u003E\""
unfolding json_escape json_char
json_escape-tag = refl

read_html-html_escape_example :
    (read_html 0 (html_escape quotes (codes "<a & b>")) ≡ codes "<a & b>")
    × (all (is_safe quotes) (html_escape quotes (codes "<a & b>")) ≡ true)
read_html-html_escape_example = read_html-html_escape quotes (codes "<a & b>")

-- A codec that changes nothing, and a decoder of base 64 that does not either.
abbrev ascii : Codec
ascii = record { name = codes "ascii"; to_unicode = λ s. s; from_unicode = λ s. s }

abbrev mime : Mime
mime = record {
  codec_for_name = λ n. if eq n (codes "ascii") then some ascii else none;
  from_base64 = λ s. s;
  to_base64 = λ s. s;
}

ascii_known : mime.codec_for_name (codes "ascii") ≡ some ascii
unfolding eq
ascii_known = refl
