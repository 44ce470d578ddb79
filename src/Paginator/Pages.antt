-- ===== src/Paginator/Pages.antt =====
-- The pages of src/tpaginator.cpp share the items out.
use tf.Base.{
  ℕ, zero, suc, ◌+◌, ◌-◌, ◌*◌, ◌/◌, ◌%◌, ◌≤◌, ◌<◌, min, max, ◌≡◌, refl, ap, true, ◌↔◌, arith,
}
use native.Mathlib.Nat.{div-add-mod}
use native.Mathlib.Decide.{dec_lt}
use tf.Base.Int.{ℤ, pos, negsuc, max_ℕ}
use tf.Paginator.{
  Paginator, calculate_num_pages, set_item_total_count, set_current_page, has_page, current, offset,
  item_count_of_current_page, ceil_div, make_odd,
}

-- What every operation keeps: at least one item a page, an odd width of the bar, and enough pages
-- for the items, but no page too many.
pub record IsValid (p : Paginator) : Type 0 where
  pub per_page : 1 ≤ p.items_per_page
  pub odd : p.mid_range % 2 ≡ 1
  pub some_page : 1 ≤ p.num_pages
  pub enough : p.items_total ≤ p.num_pages * p.items_per_page
  pub needed : (p.num_pages - 1) * p.items_per_page ≤ p.items_total

per_page-pos : (z : ℤ) → 1 ≤ max_ℕ z 1
per_page-pos (pos n) = omega arith
per_page-pos (negsuc n) = omega arith

make_odd-odd : (n : ℕ) → make_odd n % 2 ≡ 1
make_odd-odd n = ground arith

ceil_div-enough : (a b : ℕ) → 1 ≤ b → a ≤ ceil_div a b * b
ceil_div-enough a b h = omega (arith, div-add-mod (a + (b - 1)) b)

ceil_div-needed : (a b : ℕ) → 1 ≤ b → (max (ceil_div a b) 1 - 1) * b ≤ a
ceil_div-needed a b h = pages (ceil_div a b) refl
  where
    pages : (q : ℕ) → ceil_div a b ≡ q → (max q 1 - 1) * b ≤ a
    pages zero e = omega arith
    pages (suc q) e =
        let whole = div-add-mod (a + (b - 1)) b in
        let product = ap (λ (t : ℕ). b * t) e in
        let pred : max (suc q) 1 - 1 ≡ q = omega arith in rw pred (omega (arith, whole, product))

pub calculate_num_pages-IsValid :
    (total per_page range current : ℤ) → IsValid (calculate_num_pages total per_page range current)
unfolding calculate_num_pages
calculate_num_pages-IsValid total per_page range current = record {
  per_page = per_page-pos per_page;
  odd = make_odd-odd (max_ℕ range 1);
  some_page = omega arith;
  enough =
      grind (arith, ceil_div-enough (max_ℕ total 0) (max_ℕ per_page 1) (per_page-pos per_page));
  needed = ceil_div-needed (max_ℕ total 0) (max_ℕ per_page 1) (per_page-pos per_page);
}

pub set_item_total_count-IsValid :
    (total : ℤ) (p : Paginator) → IsValid (set_item_total_count total p)
unfolding set_item_total_count
set_item_total_count-IsValid total p =
    calculate_num_pages-IsValid total (pos p.items_per_page) (pos p.mid_range) p.current_page

lt_of_mul_lt : (x q b : ℕ) → x * b < q * b → x < q
lt_of_mul_lt x q b h = elim (dec_lt x q) [
  | yes less ↦ less
  | no more ↦ let above : q ≤ x = omega arith in absurd (grind arith)
]

current-at_page :
    (p : Paginator) (n : ℕ) → 1 ≤ n → n ≤ p.num_pages → current (set_current_page (pos n) p) ≡ n
unfolding current has_page set_current_page
current-at_page p n lo hi = ground arith

-- The item with index i stands on page i / items_per_page + 1.
abbrev pub page_of : Paginator → ℕ → ℕ
page_of p i = i / p.items_per_page + 1

abbrev pub at_page : Paginator → ℕ → Paginator
at_page p n = set_current_page (pos n) p

-- The items of page k + 1 are those whose index divides to k.
divides_to :
    (b k i total : ℕ)
    → 1 ≤ b
    → i < total
    → ((k * b ≤ i) × (i < k * b + min (total - k * b) b)) ↔ (k ≡ i / b)
divides_to b k i total h lt = (forth, back)
  where
    split : (b * (i / b)) + i % b ≡ i
    split = div-add-mod i b

    forth : (k * b ≤ i) × (i < k * b + min (total - k * b) b) → k ≡ i / b
    forth (lo, hi) =
        let commute : b * (i / b) ≡ (i / b) * b = grind arith in
        let next : (i / b + 1) * b ≡ (i / b) * b + b = grind arith in
        let next' : (k + 1) * b ≡ k * b + b = grind arith in
        let below = lt_of_mul_lt k (i / b + 1) b (omega (arith, split, commute, next)) in
        let above = lt_of_mul_lt (i / b) (k + 1) b (omega (arith, split, commute, next')) in
        omega arith

    back : k ≡ i / b → (k * b ≤ i) × (i < k * b + min (total - k * b) b)
    back e =
        let commute : b * (i / b) ≡ (i / b) * b = grind arith in
        let whole = ap (λ (t : ℕ). t * b) e in
        (omega (arith, split, commute, whole), omega (arith, split, commute, whole))

-- Every item stands on exactly one page, its own: going to a page that exists, the item lies among
-- the items of that page if and only if the page is the one that the division gives.
pub page_of-item :
    (p : Paginator) (i n : ℕ)
    → IsValid p
    → i < p.items_total
    → 1 ≤ n
    → n ≤ p.num_pages
    → ((offset (at_page p n) ≤ i)
        × (i < offset (at_page p n) + item_count_of_current_page (at_page p n)))
      ↔ (n ≡ page_of p i)
unfolding offset item_count_of_current_page set_current_page
page_of-item p i n v h lo hi =
    let (forth, back) = divides_to p.items_per_page (n - 1) i p.items_total v.per_page h in
    rw (current-at_page p n lo hi)
      ((λ inside. let e = forth inside in omega arith), (λ same. back (omega arith)))

-- That page exists.
pub page_of-has_page :
    (p : Paginator) (i : ℕ) → IsValid p → i < p.items_total → has_page p (pos (page_of p i)) ≡ true
unfolding has_page
page_of-has_page p i v h =
    let less : i / p.items_per_page < p.num_pages =
      lt_of_mul_lt (i / p.items_per_page) p.num_pages p.items_per_page
        (omega (arith, v.enough, div-add-mod i p.items_per_page)) in
    ground arith
