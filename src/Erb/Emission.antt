-- ===== src/Erb/Emission.antt =====
-- What ErbParser::parse() of tools/tmake/erbparser.cpp writes for a template of texts and tags.
use tf.Base.{
  ℕ, ◌<◌, ◌≡◌, refl, ap, ◌∙◌, Bool, true, false, [], ◌∷◌, ◌++◌, some, ◌==◌, length, arith,
}
use tf.Base.Text.{Text, codes, eq, is_empty, starts_with}
use tf.Erb.{
  TrimMode, trim_off, normal_trim, strong_trim, head, advance, skips, parse_end_percent_tag,
}
use tf.Erb.Cutting.{Shortens, cut, trimmed-nil, semicolon_trim-cut}
use tf.Erb.Tags.{
  ◌>>=◌, Parser, Tag, techoex, tehex, echo, escaped, start_tag_of, code_of, value_code, parse_value,
  parse_tag, parse_percent_tag, write,
}
use tf.Erb.Rendering.{passing, last_of, ends_plainly, end_loop-plain, IsValue}

-- A parser behind a tag.
abbrev pub behind : Text → Text → Parser → Text → Parser
behind t ps out r = record out {
  src_code = out.src_code ++ t;
  pos = record { passed = ps; rest = r };
}

-- The characters of a start tag, the last one first.
abbrev pub passed_tag : Tag → Text → Text
passed_tag techoex ps = b'$' ∷ b'=' ∷ b'=' ∷ 37 ∷ 60 ∷ ps
passed_tag tehex ps = b'$' ∷ b'=' ∷ 37 ∷ 60 ∷ ps
passed_tag echo ps = b'=' ∷ b'=' ∷ 37 ∷ 60 ∷ ps
passed_tag escaped ps = b'=' ∷ 37 ∷ 60 ∷ ps

abbrev pub at : Text → Text → Parser → Parser
at ps s out = record out { pos = record { passed = ps; rest = s } }

module _ (trimmed : Text → Text) (is_space : ℕ → Bool) (law : Shortens trimmed) where
  skips-value :
      (mode : TrimMode) (tag : Tag) → skips trimmed is_space mode (start_tag_of tag) ≡ false
  unfolding eq starts_with
  skips-value trim_off tag = refl
  skips-value normal_trim techoex = refl
  skips-value normal_trim tehex = refl
  skips-value normal_trim echo = refl
  skips-value normal_trim escaped = refl
  skips-value strong_trim techoex = refl
  skips-value strong_trim tehex = refl
  skips-value strong_trim echo = refl
  skips-value strong_trim escaped = refl

  last_of-any : (l m : ℕ) (e : Text) → is_empty e ≡ false → last_of l e ≡ last_of m e
  last_of-any l m [] h = cc
  last_of-any l m (c ∷ e) h = refl

  module _ (mode : TrimMode) (fuel : ℕ) where
    value_code-plain :
        (tag : Tag) (e : Text)
        → is_empty e ≡ false
        → value_code trimmed is_space mode fuel tag e (trimmed [])
          ≡ some (code_of tag (cut trimmed e))
    unfolding value_code
    value_code-plain tag e h =
        let trims = trimmed-nil trimmed law in
        let cuts = semicolon_trim-cut trimmed e law in rw (trims, h, cuts) refl

    parse_value-plain :
        (tag : Tag) (l : ℕ) (ps e r : Text) (out : Parser)
        → length e < fuel
        → IsValue e
        → parse_value trimmed is_space mode fuel tag
            (record { passed = l ∷ ps; rest = e ++ 37 ∷ 62 ∷ r })
            out
          ≡ some (behind (code_of tag (cut trimmed e)) (62 ∷ 37 ∷ passing (l ∷ ps) e) out r)
    unfolding parse_value parse_end_percent_tag
    parse_value-plain tag l ps e r out h v =
        let last : ends_plainly (last_of l e) ≡ true =
          ap ends_plainly (last_of-any l 0 e v.some_text) ∙ v.ends in
        rw
          (end_loop-plain trimmed is_space mode (start_tag_of tag) (skips-value mode tag) fuel l e
            ps [] r h v.plain last)
          (ap (λ m. m >>= (λ t. some (behind t (62 ∷ 37 ∷ passing (l ∷ ps) e) out r)))
            (value_code-plain tag e v.some_text))

    -- The first characters of a value select the tag.
    not_started :
        (c : ℕ) (cs e r : Text)
        → (head e == c) ≡ false
        → is_empty e ≡ false
        → starts_with (e ++ r) (c ∷ cs) ≡ false
    unfolding starts_with
    not_started c cs [] r h k = cc
    not_started c cs (d ∷ e) r h k = rw h

    pub parse_tag-value :
        (tag : Tag) (ps e r : Text) (out : Parser)
        → length e < fuel
        → IsValue e
        → parse_percent_tag trimmed is_space mode fuel
            (at ps (start_tag_of tag ++ (e ++ 37 ∷ 62 ∷ r)) out)
          ≡ some (
              behind
                (code_of tag (cut trimmed e))
                (62 ∷ 37 ∷ passing (passed_tag tag ps) e)
                (write (codes "  ") out)
                r)
    unfolding parse_percent_tag parse_tag advance starts_with
    parse_tag-value techoex ps e r out h v =
        parse_value-plain techoex b'$' (b'=' ∷ b'=' ∷ 37 ∷ 60 ∷ ps) e r
          (write (codes "  ") (at ps (codes "<%==$" ++ (e ++ 37 ∷ 62 ∷ r)) out)) h v
    parse_tag-value tehex ps e r out h v =
        parse_value-plain tehex b'$' (b'=' ∷ 37 ∷ 60 ∷ ps) e r
          (write (codes "  ") (at ps (codes "<%=$" ++ (e ++ 37 ∷ 62 ∷ r)) out)) h v
    parse_tag-value echo ps e r out h v =
        let no_dollar =
          not_started b'$' [] e (37 ∷ 62 ∷ r) (ground (arith, v.starts)) v.some_text in
        rw no_dollar (
          parse_value-plain echo b'=' (b'=' ∷ 37 ∷ 60 ∷ ps) e r
            (write (codes "  ") (at ps (codes "<%==" ++ (e ++ 37 ∷ 62 ∷ r)) out)) h v)
    parse_tag-value escaped ps e r out h v =
        let no_equals : (head e == b'=') ≡ false = ground (arith, v.starts) in
        let no_dollar : (head e == b'$') ≡ false = ground (arith, v.starts) in
        let rest = 37 ∷ 62 ∷ r in
        rw
          (
            not_started b'=' (b'$' ∷ []) e rest no_equals v.some_text,
            not_started b'$' [] e rest no_dollar v.some_text,
            not_started b'=' [] e rest no_equals v.some_text,
          )
          (parse_value-plain escaped b'=' (37 ∷ 60 ∷ ps) e r
            (write (codes "  ") (at ps (codes "<%=" ++ (e ++ 37 ∷ 62 ∷ r)) out)) h v)
