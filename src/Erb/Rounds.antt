-- ===== src/Erb/Rounds.antt =====
-- The rounds of ErbParser::parse() of tools/tmake/erbparser.cpp, and what is left of the template
-- after each.
use tf.Base.{
  ℕ, zero, suc, ◌-◌, ◌≤◌, ◌<◌, ◌≡◌, refl, ap, ◌∙◌, Bool, true, false, ◌||◌, [], ◌∷◌, ◌++◌, Option,
  none, some, if◌then◌else◌, ◌==◌, length, arith, inl, inr, Bool-cases,
}
use tf.Base.Text.{Text, codes, is_empty, starts_with}
use tf.Erb.{TrimMode, Pos, head, advance, pos_match_with, parse_end_percent_tag}
use tf.Erb.Termination.{left, left-advance, parse_end_total, not_empty}
use tf.Erb.Cutting.{Shortens, cut, semicolon_trim-cut}
use tf.Erb.Tags.{
  value_code, code_of, code_of_both, code_with_default, Parser, Tag, techoex, tehex, echo, escaped,
  ◌>>=◌, parse_value, parse_include, parse_comment, parse_code, parse_tag, parse_percent_tag,
  find_tag, after, parse_loop, write, text_code, parse, with_semicolon, erb_data, start_tag_of,
}

-- A parser is returned, with at most `n` characters left.
abbrev pub Returns : ℕ → Option Parser → Type 0
Returns n m = (out : Parser) × (m ≡ some out) × (left out.pos ≤ n)

if-Returns :
    (n : ℕ) (b : Bool) (x y : Option Parser)
    → Returns n x
    → Returns n y
    → Returns n (if b then x else y)
if-Returns n true x y hx hy = hx
if-Returns n false x y hx hy = hy

-- What is found is a tag, and stands in the text.
find_tag-some :
    (passed s : Text) (p : Pos)
    → (find_tag passed s).1 ≡ some p
    → (left p ≤ length s) × (pos_match_with (codes "<%") p ≡ true)
unfolding find_tag
find_tag-some passed [] p e = cc
find_tag-some passed (c ∷ s) p e = elim (Bool-cases (starts_with (c ∷ s) (codes "<%"))) [
  | inl m ↦ ground arith
  | inr m ↦ ground (arith, find_tag-some (c ∷ passed) s p)
]

module _ (trimmed : Text → Text) (law : Shortens trimmed) (is_space : ℕ → Bool) (mode : TrimMode)
    (fuel : ℕ) where
  value_code_total :
      (tag : Tag) (first second : Text)
      → (t : Text) × (value_code trimmed is_space mode fuel tag first second ≡ some t)
  unfolding value_code code_of_both
  value_code_total tag first second =
      let v = cut trimmed first in
      let d = cut trimmed second in
      let e1 = semicolon_trim-cut trimmed first law in
      let e2 = semicolon_trim-cut trimmed second law in
      elim (Bool-cases (is_empty first)) [
        | inl q ↦ ([], rw q refl)
        | inr q ↦ elim (Bool-cases (is_empty second)) [
          | inl q' ↦ (code_of tag v, rw (q, q', e1) refl)
          | inr q' ↦ (code_with_default tag v d, rw (q, q', e1, e2) refl)
        ]
      ]

  bind-Returns :
      (n : ℕ) (start_tag : Text) (p : Pos) (f : Text × Text × Pos → Parser)
      → left p < fuel
      → left p ≤ n
      → ((r : Text × Text × Pos) → (f r).pos ≡ r.2)
      → Returns n
          (parse_end_percent_tag trimmed is_space mode fuel start_tag p >>= (λ r. some (f r)))
  bind-Returns n start_tag p f h k same =
      let (r, found, fits) = parse_end_total is_space trimmed mode fuel start_tag p h in
      (f r, ap (λ m. m >>= (λ x. some (f x))) found, omega (arith, ap left (same r)))

  parse_value-Returns :
      (n : ℕ) (tag : Tag) (p : Pos) (out : Parser)
      → left p < fuel
      → left p ≤ n
      → Returns n (parse_value trimmed is_space mode fuel tag p out)
  unfolding parse_value
  parse_value-Returns n tag p out h k =
      let (r, found, fits) = parse_end_total is_space trimmed mode fuel (start_tag_of tag) p h in
      let (code, written) = value_code_total tag r.0 r.1 in
      let end : Parser = record out { src_code = out.src_code ++ code; pos = r.2 } in
      (
        end,
        ap
              (λ m. m >>= (λ x.
                value_code trimmed is_space mode fuel tag x.0 x.1
                >>= (λ c. some (record out { src_code = out.src_code ++ c; pos = x.2 }))))
              found
            ∙ ap (λ m. m >>= (λ c. some (record out { src_code = out.src_code ++ c; pos = r.2 })))
                written,
        omega arith,
      )

  parse_include-Returns :
      (n : ℕ) (p : Pos) (out : Parser)
      → left p < fuel
      → left p ≤ n
      → Returns n (parse_include trimmed is_space mode fuel p out)
  unfolding parse_include
  parse_include-Returns n p out h k =
      bind-Returns n (codes "<%#include") p
        (λ r. record out { inc_code = out.inc_code ++ 35 ∷ r.0 ++ 10 ∷ []; pos = r.2 }) h k
        (λ r. refl)

  parse_comment-Returns :
      (n : ℕ) (p : Pos) (out : Parser)
      → left p < fuel
      → left p ≤ n
      → Returns n (parse_comment trimmed is_space mode fuel p out)
  unfolding parse_comment
  parse_comment-Returns n p out h k =
      bind-Returns n (codes "<%#") p
        (λ r. record out {
          src_code = out.src_code ++ codes "/*" ++ r.0 ++ codes "*/\n";
          pos = r.2;
        })
        h k (λ r. refl)

  parse_code-Returns :
      (n : ℕ) (p : Pos) (out : Parser)
      → left p < fuel
      → left p ≤ n
      → Returns n (parse_code trimmed is_space mode fuel p out)
  unfolding parse_code
  parse_code-Returns n p out h k =
      bind-Returns n (codes "<%") p
        (λ r. record out {
          src_code = out.src_code ++ with_semicolon (trimmed r.0) ++ 10 ∷ [];
          pos = r.2;
        })
        h k (λ r. refl)

  parse_tag-Returns :
      (n : ℕ) (p q : Pos) (out : Parser)
      → n < fuel
      → left p ≤ n
      → left q ≤ n
      → Returns n (parse_tag trimmed is_space mode fuel p q out)
  unfolding parse_tag
  parse_tag-Returns n p q out h hp hq =
      let two : left (advance 2 q) ≤ n = omega (arith, left-advance 2 q) in
      let one : left (advance 1 q) ≤ n = omega (arith, left-advance 1 q) in
      let behind : left q < fuel = omega arith in
      if-Returns n (head p.rest == b'#') _ _
        (if-Returns n (pos_match_with (codes "include ") q || pos_match_with (codes "include\t") q)
          _ _ (parse_include-Returns n q out behind hq) (parse_comment-Returns n q out behind hq))
        (if-Returns n (head p.rest == b'=') _ _
          (if-Returns n (pos_match_with (codes "=$") q) _ _
            (parse_value-Returns n techoex (advance 2 q) out (omega arith) two)
            (if-Returns n (pos_match_with (codes "$") q) _ _
              (parse_value-Returns n tehex (advance 1 q) out (omega arith) one)
              (if-Returns n (pos_match_with (codes "=") q) _ _
                (parse_value-Returns n echo (advance 1 q) out (omega arith) one)
                (parse_value-Returns n escaped q out behind hq))))
          (parse_code-Returns n p out (omega arith) hp))

  parse_percent_tag-Returns :
      (out : Parser)
      → left out.pos < fuel
      → pos_match_with (codes "<%") out.pos ≡ true
      → Returns (left out.pos - 2) (parse_percent_tag trimmed is_space mode fuel out)
  unfolding parse_percent_tag
  parse_percent_tag-Returns out h m = rw m (
      parse_tag-Returns (left out.pos - 2) (advance 2 out.pos) (advance 3 out.pos)
        (write (codes "  ") out) (omega arith) (omega (arith, left-advance 2 out.pos))
        (omega (arith, left-advance 3 out.pos)))

  after_total :
      (loop : Parser → Option Parser) (out : Parser) (found : Text × Option Pos)
      → left out.pos < fuel
      → ((p : Pos)
          → found.1 ≡ some p
          → (left p ≤ left out.pos) × (pos_match_with (codes "<%") p ≡ true))
      → ((o : Parser) → left o.pos < left out.pos → (end : Parser) × (loop o ≡ some end))
      → 0 < left out.pos
      → (end : Parser) × (after trimmed is_space mode fuel loop out found ≡ some end)
  after_total loop out (t, none) k stands go h = (write (text_code t) out, refl)
  after_total loop out (t, some p) k stands go h =
      let (fits, tag) = stands p refl in
      let start : Parser = record (write (text_code t) out) { pos = p } in
      let (out', parsed, smaller) = parse_percent_tag-Returns start (omega arith) tag in
      let (end, done) = go out' (omega arith) in (end, rw parsed done)

  parse_loop_total :
      (rounds : ℕ) (out : Parser)
      → left out.pos < rounds
      → left out.pos < fuel
      → (end : Parser) × (parse_loop trimmed is_space mode fuel rounds out ≡ some end)
  unfolding parse_loop
  parse_loop_total zero out h k = elim h [ ]
  parse_loop_total (suc rounds) out h k = elim (Bool-cases (is_empty out.pos.rest)) [
    | inl e ↦ (out, rw e)
    | inr e ↦
        let (end, done) =
          after_total (λ o. parse_loop trimmed is_space mode fuel rounds o) out
            (find_tag out.pos.passed out.pos.rest) k (find_tag-some out.pos.passed out.pos.rest)
            (λ o smaller. parse_loop_total rounds o (omega arith) (omega arith))
            (not_empty out.pos.rest e) in
        (end, rw e done)
  ]

-- ErbParser::parse() ends on every template, in every mode of trimming and whatever isSpace() does,
-- where trimmed() makes no text longer: a round for each character is enough for each of its loops.
pub parse_template_total :
    (trimmed : Text → Text) (is_space : ℕ → Bool) (mode : TrimMode) (erb : Text)
    → Shortens trimmed
    → (out : Parser) × (parse trimmed is_space mode erb ≡ some out)
unfolding parse
parse_template_total trimmed is_space mode erb law =
    let d = erb_data is_space mode erb in
    parse_loop_total trimmed law is_space mode (suc (length d)) (suc (length d))
      (record { src_code = []; inc_code = []; pos = record { passed = []; rest = d } })
      (omega arith) (omega arith)
