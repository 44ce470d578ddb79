-- ===== src/Erb/Templates.antt =====
-- Whole templates of texts and tags for values, and the source code of tools/tmake/erbparser.cpp for
-- them.
use tf.Base.{
  ℕ, zero, suc, ◌+◌, ◌<◌, ◌≡◌, refl, sym, ap, ◌∙◌, Bool, true, false, List, [], ◌∷◌, ◌++◌, some,
  length, arith, All, append-nil, length-append,
}
use tf.Base.Text.{Text, codes, is_empty}
use tf.Erb.{TrimMode}
use tf.Erb.Cutting.{Shortens, cut}
use tf.Erb.Tags.{
  Parser, Tag, techoex, tehex, echo, escaped, start_tag_of, code_of, ◌>>=◌, find_tag, after,
  parse_loop, write, text_code, parse, erb_data, erb_data,
}
use tf.Erb.Rendering.{no_tag, find_tag-none, find_tag-first, passing, IsValue}
use tf.Erb.Emission.{parse_tag-value, passed_tag, at}

-- A text with no tag in it, and a tag with its value.
pub record Segment : Type 0 where
  pub text : Text
  pub tag : Tag
  pub value : Text

-- The template of the segments, with the text after them.
abbrev pub render : List Segment → Text → Text
render [] last = last
render (s ∷ ss) last = s.text ++ (start_tag_of s.tag ++ (s.value ++ 37 ∷ 62 ∷ render ss last))

-- A statement for each text that is not empty and for each tag, behind those written before.
abbrev pub emit : (Text → Text) → Text → List Segment → Text → Text
emit trimmed src [] last = src ++ text_code last
emit trimmed src (s ∷ ss) last =
    emit trimmed (((src ++ text_code s.text) ++ codes "  ") ++ code_of s.tag (cut trimmed s.value))
      ss last

abbrev pub IsSegment : Segment → Type 0
IsSegment s = (no_tag s.text ≡ true) × IsValue s.value

abbrev behind_tag : Tag → Text
behind_tag techoex = codes "==$"
behind_tag tehex = codes "=$"
behind_tag echo = codes "=="
behind_tag escaped = codes "="

start_tag-behind_tag :
    (tag : Tag) (s : Text) → start_tag_of tag ++ s ≡ 60 ∷ 37 ∷ (behind_tag tag ++ s)
start_tag-behind_tag techoex s = refl
start_tag-behind_tag tehex s = refl
start_tag-behind_tag echo s = refl
start_tag-behind_tag escaped s = refl

find_tag-segment :
    (passed t s : Text) (tag : Tag)
    → no_tag t ≡ true
    → find_tag passed (t ++ (start_tag_of tag ++ s))
      ≡ (t, some (record { passed = passing passed t; rest = start_tag_of tag ++ s }))
find_tag-segment passed t s tag h =
    rw (start_tag-behind_tag tag s) (find_tag-first passed t (behind_tag tag ++ s) h)

not_empty-segment : (t s : Text) (tag : Tag) → is_empty (t ++ (start_tag_of tag ++ s)) ≡ false
not_empty-segment [] s tag = rw (start_tag-behind_tag tag s)
not_empty-segment (c ∷ t) s tag = refl

length-segment :
    (s : Segment) (ss : List Segment) (last : Text)
    → length s.value + length (render ss last) < length (render (s ∷ ss) last)
length-segment s ss last = omega (
  arith,
  length-append s.text (start_tag_of s.tag ++ (s.value ++ 37 ∷ 62 ∷ render ss last)),
  length-append (start_tag_of s.tag) (s.value ++ 37 ∷ 62 ∷ render ss last),
  length-append s.value (37 ∷ 62 ∷ render ss last),
)

module _ (trimmed : Text → Text) (is_space : ℕ → Bool) (law : Shortens trimmed) (mode : TrimMode)
    (fuel : ℕ) where
  parse_loop-render :
      (rounds : ℕ) (ss : List Segment) (last : Text) (ps : Text) (out : Parser)
      → All IsSegment ss
      → no_tag last ≡ true
      → length (render ss last) < rounds
      → length (render ss last) < fuel
      → (end : Parser) × (parse_loop trimmed is_space mode fuel rounds (at ps (render ss last) out)
          ≡ some end)
        × (end.src_code ≡ emit trimmed out.src_code ss last)
  unfolding parse_loop text_code
  parse_loop-render zero ss last ps out hs hl h k = absurd (omega arith)
  parse_loop-render (suc rounds) [] [] ps out hs hl h k = (_, refl, sym (append-nil out.src_code))
  parse_loop-render (suc rounds) [] (c ∷ last) ps out hs hl h k = (
    write (text_code (c ∷ last)) (at ps (c ∷ last) out),
    ap
        (after trimmed is_space mode fuel (λ o. parse_loop trimmed is_space mode fuel rounds o)
          (at ps (c ∷ last) out))
        (find_tag-none ps (c ∷ last) hl),
    refl,
  )
  parse_loop-render (suc rounds) (s ∷ ss) last ps out ((plain, value), hss) hl h k =
      let R = render ss last in
      let shorter = length-segment s ss last in
      let out' : Parser = record out {
        src_code =
            ((out.src_code ++ text_code s.text) ++ codes "  ")
            ++ code_of s.tag (cut trimmed s.value);
      } in
      let ps' : Text = 62 ∷ 37 ∷ passing (passed_tag s.tag (passing ps s.text)) s.value in
      let (end, found, same) =
        parse_loop-render rounds ss last ps' out' hss hl (omega arith) (omega arith) in
      let tag =
        parse_tag-value trimmed is_space law mode fuel s.tag (passing ps s.text) s.value R
          (write (text_code s.text) out) (omega arith) value in
      let rest = s.value ++ 37 ∷ 62 ∷ R in
      (
        end,
        rw (not_empty-segment s.text rest s.tag) (
            ap
              (after trimmed is_space mode fuel
                (λ o. parse_loop trimmed is_space mode fuel rounds o)
                (at ps (s.text ++ (start_tag_of s.tag ++ rest)) out))
              (find_tag-segment ps s.text rest s.tag plain)
            ∙ ap (λ m. m >>= (λ o. parse_loop trimmed is_space mode fuel rounds o)) tag
            ∙ found),
        same,
      )

-- For a template of texts and of tags that output values, whose values have neither quotes nor
-- percent signs, which the strong trimming, if chosen, leaves as it is, and where trimmed() makes no
-- text longer, parse() writes a statement for each text that is not empty and for each value, in their
-- order, with the value cut of its semicolons: the function of the tag is chosen by the signs that the
-- tag starts with.
pub parse-render :
    (trimmed : Text → Text) (is_space : ℕ → Bool) (mode : TrimMode) (ss : List Segment)
    (last : Text)
    → Shortens trimmed
    → erb_data is_space mode (render ss last) ≡ render ss last
    → All IsSegment ss
    → no_tag last ≡ true
    → (end : Parser) × (parse trimmed is_space mode (render ss last) ≡ some end)
      × (end.src_code ≡ emit trimmed [] ss last)
unfolding parse
parse-render trimmed is_space mode ss last law same hs hl = rw same (
    parse_loop-render trimmed is_space law mode (suc (length (render ss last)))
      (suc (length (render ss last))) ss last []
      (record { src_code = []; inc_code = []; pos = record { passed = []; rest = [] } }) hs hl
      (omega arith) (omega arith))
