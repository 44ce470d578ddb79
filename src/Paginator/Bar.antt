-- ===== src/Paginator/Bar.antt =====
-- The page bar, range() of src/tpaginator.cpp.
use tf.Base.{
  ◌/◌, ◌^◌, ◌==◌, false, true, some, refl, Bool-cases, inl, inr, if◌then◌else◌, ltb, max, ℕ, ◌+◌,
  ◌-◌, ◌≤◌, ◌<◌, min, ◌≡◌, ap, ◌∙◌, arith,
}
use tf.Base.Int.{ℤ, pos, negsuc}
use tf.Paginator.{
  Paginator, has_page, current, bar_start, bar_end, bar_first, pages_from, range, is_int, pages_to,
}
use tf.Paginator.Pages.{IsValid}

-- The current page always exists.
current-bounds : (p : Paginator) → IsValid p → (1 ≤ current p) × (current p ≤ p.num_pages)
unfolding current has_page
current-bounds p v = go p.current_page
  where
    go :
        (c : ℤ)
        → (1 ≤ current (record p { current_page = c }))
          × (current (record p { current_page = c }) ≤ p.num_pages)
    go (pos n) = ground (arith, v.some_page)
    go (negsuc n) = (omega arith, v.some_page)

-- The end and the start of the bar where no int wraps around.
abbrev exact_end : Paginator → ℕ
exact_end p =
    if bar_start p == 1
    then min p.mid_range p.num_pages
    else min (current p + p.mid_range / 2) p.num_pages

abbrev exact_first : Paginator → ℕ
exact_first p =
    if bar_start p == 1
    then 1
    else if exact_end p == p.num_pages
    then max (p.num_pages + 1 - p.mid_range) 1
    else bar_start p

bar_end_lem :
    (p : Paginator)
    → current p ≤ p.num_pages
    → p.num_pages + p.mid_range / 2 + 1 < 2 ^ 31
    → bar_end p ≡ pos (exact_end p)
unfolding bar_end
bar_end_lem p hi small =
    let fits : ltb (current p + p.mid_range / 2) (2 ^ 31) ≡ true = ground arith in
    elim (Bool-cases (bar_start p == 1)) [ inl q ↦ rw q refl | inr q ↦ rw (q, fits) refl ]

bar_first_lem : (p : Paginator) → bar_end p ≡ pos (exact_end p) → bar_first p ≡ exact_first p
unfolding bar_first
bar_first_lem p e =
    ap
      (λ n.
        if bar_start p == 1
        then 1
        else if is_int n p.num_pages
        then max (p.num_pages + 1 - p.mid_range) 1
        else bar_start p)
      e

-- With c the current page of n and an odd width w.
bar :
    (p : Paginator)
    → IsValid p
    → 1 ≤ current p
    → current p ≤ p.num_pages
    → (1 ≤ exact_first p)
      × (exact_first p ≤ current p)
      × (current p ≤ exact_end p)
      × (exact_end p ≤ p.num_pages)
      × (exact_end p + 1 - exact_first p ≡ min p.mid_range p.num_pages)
unfolding bar_start
bar p v lo hi = ground (arith, v.odd)

pages_to_lem :
    (first end : ℕ)
    → end + 1 < 2 ^ 31
    → pages_to first (pos end) ≡ some (pages_from (end + 1 - first) first)
pages_to_lem first end h = let stops : (end == 2 ^ 31 - 1) ≡ false = ground arith in rw stops refl

range_lem :
    (p : Paginator)
    → current p ≤ p.num_pages
    → exact_end p ≤ p.num_pages
    → p.num_pages + p.mid_range / 2 + 1 < 2 ^ 31
    → range p ≡ some (pages_from (exact_end p + 1 - exact_first p) (exact_first p))
unfolding range
range_lem p hi last small =
    let e = bar_end_lem p hi small in
    ap (λ n. pages_to n (bar_end p)) (bar_first_lem p e)
    ∙ ap (pages_to (exact_first p)) e
    ∙ pages_to_lem (exact_first p) (exact_end p) (omega arith)

-- Where the number of pages and half the width of the bar are together less than the greatest int,
-- range() returns, and the bar shows as many consecutive pages as its width allows, all of them
-- existing ones, with the current page among them.
pub range-window :
    (p : Paginator)
    → IsValid p
    → p.num_pages + p.mid_range / 2 + 1 < 2 ^ 31
    → (first : ℕ) × (range p ≡ some (pages_from (min p.mid_range p.num_pages) first))
      × (1 ≤ first)
      × (first ≤ current p)
      × (current p < first + min p.mid_range p.num_pages)
      × (first + min p.mid_range p.num_pages ≤ p.num_pages + 1)
range-window p v small =
    let (lo, hi) = current-bounds p v in
    let (one, before, after, last, rounds) = bar p v lo hi in
    (
      exact_first p,
      range_lem p hi last small ∙ ap (λ n. some (pages_from n (exact_first p))) rounds,
      one,
      before,
      omega (arith, rounds),
      omega (arith, rounds),
    )
