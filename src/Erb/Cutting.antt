-- ===== src/Erb/Cutting.antt =====
-- semicolonTrim() of tools/tmake/erbparser.cpp ends, where trimmed() makes no text longer.
use tf.Base.{
  ℕ, zero, suc, ◌-◌, ◌≤◌, ◌<◌, ◌≡◌, refl, sym, ap, ◌∙◌, true, false, [], ◌∷◌, Option, none, some,
  length, arith, inl, inr, Bool-cases, length-take,
}
use tf.Base.Text.{Text, ends_with}
use tf.Erb.Trimming.{chop, semicolon_loop, semicolon_trim}

-- What is said of trimmed(): it only takes characters away.
abbrev pub Shortens : (Text → Text) → Type 0
Shortens trimmed = (s : Text) → length (trimmed s) ≤ length s

chop-shorter : (s : Text) → ends_with s (b';' ∷ []) ≡ true → length (chop s) < length s
unfolding ends_with
chop-shorter [] h = absurd (let bad : false ≡ true = h in cc)
chop-shorter (c ∷ s) h = omega (arith, length-take (length (c ∷ s) - 1) (c ∷ s))

module _ (trimmed : Text → Text) (law : Shortens trimmed) where
  semicolon_loop_total :
      (fuel : ℕ) (res : Text)
      → length res < fuel
      → (t : Text) × (semicolon_loop trimmed fuel res ≡ some t)
  unfolding semicolon_loop
  semicolon_loop_total zero res h = absurd (omega arith)
  semicolon_loop_total (suc fuel) res h = elim (Bool-cases (ends_with (trimmed res) (b';' ∷ []))) [
    | inl q ↦
        let shorter = chop-shorter (trimmed res) q in
        let (t, e) = semicolon_loop_total fuel (chop (trimmed res)) (omega (arith, law res)) in
        (t, rw q e)
    | inr q ↦ (trimmed res, rw q refl)
  ]

  pub semicolon_trim_total : (str : Text) → (t : Text) × (semicolon_trim trimmed str ≡ some t)
  unfolding semicolon_trim
  semicolon_trim_total str = semicolon_loop_total (suc (length str)) str (omega arith)

  -- trimmed() leaves nothing of nothing.
  pub trimmed-nil : trimmed [] ≡ []
  trimmed-nil = none_left (trimmed []) (law [])
    where
      none_left : (t : Text) → length t ≤ 0 → t ≡ []
      none_left [] h = refl
      none_left (c ∷ t) h = absurd (omega arith)

-- What semicolonTrim() leaves.
abbrev kept : Option Text → Text
kept none = []
kept (some t) = t

abbrev pub cut : (Text → Text) → Text → Text
cut trimmed str = kept (semicolon_trim trimmed str)

pub semicolon_trim-cut :
    (trimmed : Text → Text) (str : Text)
    → Shortens trimmed
    → semicolon_trim trimmed str ≡ some (cut trimmed str)
semicolon_trim-cut trimmed str law =
    let (t, e) = semicolon_trim_total trimmed law str in e ∙ ap (λ o. some (kept o)) (sym e)
