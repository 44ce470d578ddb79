-- ===== src/HttpUtility/Words.antt =====
-- What fromMimeEncoded() of src/thttputility.cpp reads of a word in MIME and of what follows it.
use tf.Base.{
  ◌≡◌, refl, ap, ◌∙◌, Bool, true, false, not, ◌&&◌, [], ◌∷◌, ◌++◌, some, ◌==◌, all, length, arith,
}
use tf.Base.Text.{Text, codes, eq, is_empty, starts_with, split_at, index_of_text}
use tf.HttpUtility.{Codec, Mime, is_later, mime_text, with_charset, from_mime_encoded}

-- A part of a word: not empty, and with no question mark.
abbrev pub is_part : Text → Bool
is_part s = not (is_empty s) && all (λ c. not (c == 63)) s

split_at-append :
    (s t : Text) → all (λ c. not (c == 63)) s ≡ true → split_at 63 (s ++ 63 ∷ t) ≡ (s, some t)
unfolding split_at
split_at-append [] t h = refl
split_at-append (c ∷ s) t h =
    let other : (c == 63) ≡ false = ground arith in rw (other, split_at-append s t (ground arith))

index_of_text-append :
    (s t : Text)
    → all (λ c. not (c == 63)) s ≡ true
    → index_of_text (63 ∷ 61 ∷ []) (s ++ 63 ∷ 61 ∷ t) ≡ some (length s)
unfolding index_of_text starts_with
index_of_text-append [] t h = refl
index_of_text-append (c ∷ s) t h =
    let other : (c == 63) ≡ false = ground arith in
    rw (other, index_of_text-append s t (ground arith))

is_later-length : (s : Text) → is_empty s ≡ false → is_later (some (length s)) ≡ true
is_later-length [] h = cc
is_later-length (c ∷ s) h = ground arith

-- fromMimeEncoded() hands all that follows the encoding of a word to the decoder of base 64, the end
-- of the word and what stands behind it included.
pub from_mime_encoded-all :
    (m : Mime) (codec : Codec) (name b rest : Text)
    → m.codec_for_name name ≡ some codec
    → is_part name ≡ true
    → is_part b ≡ true
    → from_mime_encoded m (codes "=?" ++ (name ++ (codes "?B?" ++ (b ++ (codes "?=" ++ rest)))))
      ≡ codec.to_unicode (m.from_base64 (b ++ (codes "?=" ++ rest)))
unfolding from_mime_encoded mime_text split_at eq starts_with
from_mime_encoded-all m codec name b rest known hn hb =
    let plain_name : all (λ c. not (c == 63)) name ≡ true = ground arith in
    let plain_b : all (λ c. not (c == 63)) b ≡ true = ground arith in
    let some_name : is_empty name ≡ false = ground arith in
    let some_b : is_empty b ≡ false = ground arith in
    let later = ap is_later (index_of_text-append b rest plain_b) ∙ is_later-length b some_b in
    let charset = split_at-append name (b'B' ∷ 63 ∷ (b ++ 63 ∷ 61 ∷ rest)) plain_name in
    ap (with_charset m) charset ∙ rw (some_name, known, later)
