-- ===== src/Erb/Quotes.antt =====
-- Quoted texts in the tags of a template, for ErbParser::parseQuote() of tools/tmake/erbparser.cpp.
use tf.Base.{
  ℕ, ◌≡◌, refl, ◌∙◌, sym, true, false, not, ◌&&◌, [], ◌∷◌, ◌++◌, ◌==◌, all, arith, append_assoc,
  append-nil,
}
use tf.Base.Text.{Text}
use tf.Erb.{advance, quote_loop, parse_quote}

quote_loop-unclosed :
    (m : ℕ) (quote passed s : Text)
    → all (λ c. not (c == m)) s ≡ true
    → ((quote_loop m quote passed s).0 ≡ quote ++ s) × ((quote_loop m quote passed s).1.rest ≡ [])
unfolding quote_loop
quote_loop-unclosed m quote passed [] h = (sym (append-nil quote), refl)
quote_loop-unclosed m quote passed (c ∷ s) h =
    let other : (c == m) ≡ false = ground arith in
    let (taken, rest) = quote_loop-unclosed m (quote ++ c ∷ []) (c ∷ passed) s (ground arith) in
    rw other (taken ∙ append_assoc quote (c ∷ []) s, rest)

regroup : (q s : Text) → ((q ++ 92 ∷ []) ++ 92 ∷ []) ++ 39 ∷ [] ++ s ≡ q ++ 92 ∷ 92 ∷ 39 ∷ s
regroup q s = simp append_assoc

quote_loop-backslash :
    (b q ps s : Text)
    → all (λ c. not (c == 39) && not (c == 92)) b ≡ true
    → all (λ c. not (c == 39)) s ≡ true
    → ((quote_loop 39 q ps (b ++ 92 ∷ 92 ∷ 39 ∷ s)).0 ≡ q ++ (b ++ 92 ∷ 92 ∷ 39 ∷ s))
      × ((quote_loop 39 q ps (b ++ 92 ∷ 92 ∷ 39 ∷ s)).1.rest ≡ [])
unfolding quote_loop
quote_loop-backslash [] q ps s h k =
    let (taken, rest) =
      quote_loop-unclosed 39 (((q ++ 92 ∷ []) ++ 92 ∷ []) ++ 39 ∷ []) (39 ∷ 92 ∷ 92 ∷ ps) s k in
    (taken ∙ regroup q s, rest)
quote_loop-backslash (c ∷ b) q ps s h k =
    let other : (c == 39) ≡ false = ground arith in
    let (taken, rest) = quote_loop-backslash b (q ++ c ∷ []) (c ∷ ps) s (ground arith) k in
    rw other (taken ∙ append_assoc q (c ∷ []) (b ++ 92 ∷ 92 ∷ 39 ∷ s), rest)

-- A quoted text that ends in an escaped backslash is not closed by its quote: where no other quote
-- of the kind follows, parseQuote() takes all of the template that is left.
pub parse_quote-backslash :
    (passed before s : Text)
    → all (λ c. not (c == 39) && not (c == 92)) before ≡ true
    → all (λ c. not (c == 39)) s ≡ true
    → let quoted = 39 ∷ (before ++ 92 ∷ 92 ∷ 39 ∷ s) in
      let r = parse_quote (record { passed = passed; rest = quoted }) in
      (r.0 ≡ quoted) × (r.1.rest ≡ [])
unfolding parse_quote advance
parse_quote-backslash passed before s h k =
    quote_loop-backslash before (39 ∷ []) (39 ∷ passed) s h k
