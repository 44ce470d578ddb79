-- ===== src/Erb/Termination.antt =====
-- How many characters the loops of tools/tmake/erbparser.cpp take.
use tf.Base.{
  ℕ, zero, suc, ◌-◌, ◌≤◌, ◌<◌, ◌≡◌, refl, ap, ◌∙◌, Bool, true, false, not, ◌&&◌, [], ◌∷◌, ◌++◌,
  some, ◌==◌, length, drop, arith, inl, inr, Bool-cases, length-drop,
}
use tf.Base.Text.{Text, codes, is_empty}
use tf.Erb.{
  TrimMode, Pos, Content, head, step, advance, pos_match_with, quote_loop, is_quote, parse_quote,
  skip_loop, skip_white_spaces_and_new_line_code, end_tag, read_char, read_content, end_loop, ended,
  parse_end_percent_tag, ended,
}

-- How many characters follow a position.
abbrev pub left : Pos → ℕ
left p = length p.rest

pub rest-advance : (n : ℕ) (p : Pos) → (advance n p).rest ≡ drop n p.rest
unfolding advance
rest-advance zero p = refl
rest-advance (suc n) p = rest-advance n (step p.passed p.rest) ∙ drop-step n p.passed p.rest
  where
    drop-step : (n : ℕ) (passed s : Text) → drop n (step passed s).rest ≡ drop (suc n) s
    drop-step zero passed [] = refl
    drop-step (suc n) passed [] = refl
    drop-step n passed (c ∷ s) = refl

pub left-advance : (n : ℕ) (p : Pos) → left (advance n p) ≡ left p - n
left-advance n p = ap length (rest-advance n p) ∙ length-drop n p.rest

left-quote_loop : (m : ℕ) (quote passed s : Text) → left (quote_loop m quote passed s).1 ≤ length s
unfolding quote_loop
left-quote_loop m quote passed [] = omega arith
left-quote_loop m quote passed (c ∷ s) = elim (Bool-cases (c == m && not (head passed == 92))) [
  | inl e ↦ rw e (omega arith)
  | inr e ↦ rw e (omega (arith, left-quote_loop m (quote ++ c ∷ []) (c ∷ passed) s))
]

left-read_char : (c : Content) (p : Pos) → left (read_char c p).1 ≤ left p - 1
unfolding read_char parse_quote
left-read_char c p = elim (Bool-cases (is_quote (head p.rest))) [
  | inl e ↦ rw e (
      omega (
        arith,
        left-advance 1 p,
        left-quote_loop (head p.rest) (head p.rest ∷ []) (advance 1 p).passed (advance 1 p).rest,
      ))
  | inr e ↦ rw e (omega (arith, left-advance 1 p))
]

left-read_content : (c : Content) (p : Pos) → left (read_content c p).1 ≤ left p - 1
unfolding read_content
left-read_content c p = elim (Bool-cases (pos_match_with (codes "%|%") p)) [
  | inl e ↦ rw e (
      omega
        (arith, left-advance 3 p, left-read_char (record c { default_flag = true }) (advance 3 p)))
  | inr e ↦ rw e (left-read_char c p)
]

pub not_empty : (s : Text) → is_empty s ≡ false → 0 < length s
not_empty [] e = cc
not_empty (c ∷ s) e = omega arith

module _ (is_space : ℕ → Bool) where
  left-skip_loop :
      (n : ℕ) (start : Pos) (passed s : Text)
      → left start ≤ n
      → length s ≤ n
      → left (skip_loop is_space start passed s) ≤ n
  unfolding skip_loop
  left-skip_loop n start passed [] h k = omega arith
  left-skip_loop n start passed (c ∷ s) h k = ground (arith, left-skip_loop n start (c ∷ passed) s)

  left-skip : (p : Pos) → left (skip_white_spaces_and_new_line_code is_space p) ≤ left p
  unfolding skip_white_spaces_and_new_line_code
  left-skip p = left-skip_loop (left p) p p.passed p.rest (omega arith) (omega arith)

  module _ (trimmed : Text → Text) (mode : TrimMode) where
    left-end_tag :
        (start_tag : Text) (last : ℕ) (c : Content) (p : Pos)
        → left (end_tag trimmed is_space mode start_tag last c p).1 ≤ left p
    unfolding end_tag
    left-end_tag start_tag last c p = ground (arith, left-skip p)

    end_loop_total :
        (fuel : ℕ) (start_tag : Text) (c : Content) (p : Pos)
        → left p < fuel
        → (r : Content × Pos) × (end_loop trimmed is_space mode fuel start_tag c p ≡ some r)
          × (left r.1 ≤ left p)
    unfolding end_loop
    end_loop_total zero start_tag c p h = elim h [ ]
    end_loop_total (suc fuel) start_tag c p h = elim (Bool-cases (is_empty p.rest)) [
      | inl e ↦ ((c, p), rw e, omega arith)
      | inr e ↦ elim (Bool-cases (pos_match_with (codes "%>") p)) [
        | inl m ↦
            let r = end_tag trimmed is_space mode start_tag (head p.passed) c (advance 2 p) in
            (
              r,
              rw (e, m),
              omega
                  (arith, left-end_tag start_tag (head p.passed) c (advance 2 p), left-advance 2 p),
            )
        | inr m ↦
            let next = read_content c p in
            let shorter : left next.1 ≤ left p - 1 = left-read_content c p in
            let some_left : 0 < left p = not_empty p.rest e in
            let (r, found, fits) = end_loop_total fuel start_tag next.0 next.1 (omega arith) in
            (r, rw (e, m) found, omega arith)
      ]
    ]

    pub parse_end_total :
        (fuel : ℕ) (start_tag : Text) (p : Pos)
        → left p < fuel
        → (r : Text × Text × Pos) × (parse_end_percent_tag trimmed is_space mode fuel start_tag p
            ≡ some r)
          × (left r.2 ≤ left p)
    unfolding parse_end_percent_tag
    parse_end_total fuel start_tag p h =
        let c0 : Content = record { string = []; default_val = []; default_flag = false } in
        let ((c, q), found, fits) = end_loop_total fuel start_tag c0 p h in
        ((c.string, trimmed c.default_val, q), ap (ended trimmed is_space mode) found, fits)
