-- ===== src/Erb/Rendering.antt =====
-- Templates of texts and tags for values, and the code that ErbParser::parse() of
-- tools/tmake/erbparser.cpp writes for them.
use tf.Base.{
  ℕ, zero, suc, ◌<◌, ◌≡◌, refl, sym, ap, ◌∙◌, Bool, true, false, not, ◌&&◌, ◌||◌, [], ◌∷◌, ◌++◌,
  none, some, ◌==◌, length, arith, append_assoc, all, append-nil,
}
use tf.Base.Text.{Text, codes, is_empty, starts_with}
use tf.Erb.{
  TrimMode, Pos, Content, head, advance, is_quote, skips, end_tag, end_loop, read_content,
  read_char,
}
use tf.Erb.Tags.{find_tag}

-- A text with no tag in it.
unfoldable pub no_tag : Text → Bool
no_tag [] = true
no_tag (c ∷ s) = not (starts_with (c ∷ s) (codes "<%")) && no_tag s

starts_with-before_tag :
    (c : ℕ) (s r : Text)
    → starts_with (c ∷ s ++ 60 ∷ 37 ∷ r) (codes "<%") ≡ starts_with (c ∷ s) (codes "<%")
unfolding starts_with
starts_with-before_tag c [] r = ground arith
starts_with-before_tag c (d ∷ s) r = refl

pub find_tag-none : (passed t : Text) → no_tag t ≡ true → find_tag passed t ≡ (t, none)
unfolding find_tag no_tag
find_tag-none passed [] h = refl
find_tag-none passed (c ∷ t) h = ground (arith, find_tag-none (c ∷ passed) t)

-- The text up to a tag, with the characters passed as they come.
abbrev pub passing : Text → Text → Text
passing passed [] = passed
passing passed (c ∷ t) = passing (c ∷ passed) t

pub find_tag-first :
    (passed t r : Text)
    → no_tag t ≡ true
    → find_tag passed (t ++ 60 ∷ 37 ∷ r)
      ≡ (t, some (record { passed = passing passed t; rest = 60 ∷ 37 ∷ r }))
unfolding find_tag no_tag starts_with
find_tag-first passed [] r h = refl
find_tag-first passed (c ∷ t) r h =
    let here : starts_with (c ∷ t) (codes "<%") ≡ false = ground arith in
    let first = starts_with-before_tag c t r ∙ here in
    rw (first, find_tag-first (c ∷ passed) t r (ground arith))

-- A character of a value that is neither a quote nor a percent sign.
abbrev pub is_plain : ℕ → Bool
is_plain c = not (c == 37) && not (is_quote c)

-- The character in front of the end of the tag.
abbrev pub last_of : ℕ → Text → ℕ
last_of l [] = l
last_of l (c ∷ e) = last_of c e

abbrev pub ends_plainly : ℕ → Bool
ends_plainly c = not (c == 45) && not (c == 43)

abbrev pub plain_content : Text → Content
plain_content t = record { string = t; default_val = []; default_flag = false }

read_content-plain :
    (c : ℕ) (acc passed s : Text)
    → is_plain c ≡ true
    → read_content (plain_content acc) (record { passed = passed; rest = c ∷ s })
      ≡ (plain_content (acc ++ c ∷ []), record { passed = c ∷ passed; rest = s })
unfolding read_content read_char advance starts_with
read_content-plain c acc passed s plain =
    let percent : (c == 37) ≡ false = ground arith in
    let quote : is_quote c ≡ false = ground arith in rw (percent, quote)

module _ (trimmed : Text → Text) (is_space : ℕ → Bool) (mode : TrimMode) (start_tag : Text)
    (skip : skips trimmed is_space mode start_tag ≡ false) where
  pub end_tag-plain :
      (l : ℕ) (c : Content) (p : Pos)
      → ends_plainly l ≡ true
      → end_tag trimmed is_space mode start_tag l c p ≡ (c, p)
  unfolding end_tag
  end_tag-plain l c p last =
      let neither : (l == 45 || l == 43) ≡ false = ground arith in rw (neither, skip)

  pub end_loop-plain :
      (fuel l : ℕ) (e ps acc r : Text)
      → length e < fuel
      → all is_plain e ≡ true
      → ends_plainly (last_of l e) ≡ true
      → end_loop trimmed is_space mode fuel start_tag
          (plain_content acc)
          (record { passed = l ∷ ps; rest = e ++ 37 ∷ 62 ∷ r })
        ≡ some
            (plain_content (acc ++ e), record { passed = 62 ∷ 37 ∷ passing (l ∷ ps) e; rest = r })
  unfolding end_loop advance starts_with
  end_loop-plain zero l e ps acc r h plain last = absurd (omega arith)
  end_loop-plain (suc fuel) l [] ps acc r h plain last =
      ap some
        (end_tag-plain l (plain_content acc) (record { passed = 62 ∷ 37 ∷ l ∷ ps; rest = r }) last)
      ∙ ap (λ t. some (plain_content t, record { passed = 62 ∷ 37 ∷ l ∷ ps; rest = r }))
          (sym (append-nil acc))
  end_loop-plain (suc fuel) l (c ∷ e) ps acc r h plain last =
      let percent : (c == 37) ≡ false = ground arith in
      let first : is_plain c ≡ true = ground arith in
      let others : all is_plain e ≡ true = ground arith in
      rw (percent, read_content-plain c acc (l ∷ ps) (e ++ 37 ∷ 62 ∷ r) first)
        (end_loop-plain fuel c e (l ∷ ps) (acc ++ c ∷ []) r (omega arith) others last
          ∙ ap
              (λ t.
                some
                  (plain_content t, record { passed = 62 ∷ 37 ∷ passing (c ∷ l ∷ ps) e; rest = r }))
              (append_assoc acc (c ∷ []) e))

-- A value of a tag: it is not empty, has no quotes and no percent sign, does not end in a sign that
-- trims, and does not start with a sign that makes it another tag.
pub record IsValue (e : Text) : Type 0 where
  pub some_text : is_empty e ≡ false
  pub plain : all is_plain e ≡ true
  pub ends : ends_plainly (last_of 0 e) ≡ true
  pub starts : not (head e == b'=') && not (head e == b'$') ≡ true
