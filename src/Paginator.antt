-- ===== src/Paginator.antt =====
-- src/tpaginator.h and src/tpaginator.cpp: the pages of a list of items and the bar of page numbers.
-- Numbers of type `int` that may be negative are integers; those that the class keeps at 0 or above
-- are natural numbers. The quotient of two `int`s in double precision, rounded up, is the exact one.
use tf.Base.{
  ℕ, zero, suc, ◌+◌, ◌-◌, ◌*◌, ◌/◌, ◌%◌, min, max, Bool, true, false, ◌&&◌, List, [], ◌∷◌, leb, ltb,
  ◌==◌, ◌^◌, Option, none, some, if◌then◌else◌,
}
use tf.Base.Int.{ℤ, pos, negsuc, max_ℕ}
pub mod Pages
pub mod Bar
pub mod Reach

pub record Paginator : Type 0 where
  pub items_total : ℕ
  pub items_per_page : ℕ
  pub mid_range : ℕ
  pub num_pages : ℕ
  pub current_page : ℤ

-- An even number of pages around the current one is made odd.
abbrev pub make_odd : ℕ → ℕ
make_odd n = if n % 2 == 0 then n + 1 else n

-- ceil(a / (double)b)
abbrev pub ceil_div : ℕ → ℕ → ℕ
ceil_div a b = (a + (b - 1)) / b

-- calculateNumPages() over the members as they were set.
unfoldable pub calculate_num_pages : ℤ → ℤ → ℤ → ℤ → Paginator
calculate_num_pages total per_page range current =
    let items_total = max_ℕ total 0 in
    let items_per_page = max_ℕ per_page 1 in
    record {
      items_total = items_total;
      items_per_page = items_per_page;
      mid_range = make_odd (max_ℕ range 1);
      num_pages = max (ceil_div items_total items_per_page) 1;
      current_page = current;
    }

-- TPaginator(itemsTotal, itemsPerPage, midRange)
unfoldable pub new : ℤ → ℤ → ℤ → Paginator
unfolding calculate_num_pages
new items_total items_per_page mid_range =
    calculate_num_pages items_total items_per_page mid_range (pos 1)

unfoldable pub set_item_total_count : ℤ → Paginator → Paginator
unfolding calculate_num_pages
set_item_total_count total p =
    calculate_num_pages total (pos p.items_per_page) (pos p.mid_range) p.current_page

unfoldable pub set_item_count_per_page : ℤ → Paginator → Paginator
unfolding calculate_num_pages
set_item_count_per_page count p =
    calculate_num_pages (pos p.items_total) count (pos p.mid_range) p.current_page

unfoldable pub set_mid_range : ℤ → Paginator → Paginator
unfolding calculate_num_pages
set_mid_range range p =
    calculate_num_pages (pos p.items_total) (pos p.items_per_page) range p.current_page

unfoldable pub set_current_page : ℤ → Paginator → Paginator
set_current_page page p = record p { current_page = page }

unfoldable pub has_page : Paginator → ℤ → Bool
has_page p (pos n) = ltb 0 n && leb n p.num_pages
has_page p (negsuc n) = false

abbrev page_number : ℤ → ℕ
page_number (pos n) = n
page_number (negsuc n) = 0

-- currentPage()
unfoldable pub current : Paginator → ℕ
current p = if has_page p p.current_page then page_number p.current_page else 1

unfoldable pub offset : Paginator → ℕ
offset p = (current p - 1) * p.items_per_page

-- qBound(0, itemsTotal - offset(), itemsPerPage), where a negative difference gives 0.
unfoldable pub item_count_of_current_page : Paginator → ℕ
item_count_of_current_page p = min (p.items_total - offset p) p.items_per_page

unfoldable pub previous_page : Paginator → ℕ
previous_page p = max (current p - 1) 1

-- An int that a sum of two of them that are not negative wraps around to.
abbrev pub wrapped : ℕ → ℤ
wrapped n = if ltb n (2 ^ 31) then pos n else negsuc (2 ^ 32 - 1 - n)

-- qMin() with an int that is not negative.
abbrev pub min_int : ℤ → ℕ → ℤ
min_int (pos n) m = pos (min n m)
min_int (negsuc n) m = negsuc n

unfoldable pub next_page : Paginator → ℤ
next_page p = min_int (wrapped (current p + 1)) p.num_pages

unfoldable pub has_previous : Paginator → Bool
has_previous p = leb 2 (current p)

unfoldable pub has_next : Paginator → Bool
has_next p = ltb (current p) p.num_pages

-- The bounds of the page bar.
unfoldable pub bar_start : Paginator → ℕ
bar_start p = max (current p - p.mid_range / 2) 1

unfoldable pub bar_end : Paginator → ℤ
unfolding bar_start
bar_end p =
    if bar_start p == 1
    then pos (min p.mid_range p.num_pages)
    else min_int (wrapped (current p + p.mid_range / 2)) p.num_pages

abbrev pub is_int : ℤ → ℕ → Bool
is_int (pos n) m = n == m
is_int (negsuc n) m = false

unfoldable pub bar_first : Paginator → ℕ
unfolding bar_start bar_end
bar_first p =
    if bar_start p == 1
    then 1
    else if is_int (bar_end p) p.num_pages
    then max (p.num_pages + 1 - p.mid_range) 1
    else bar_start p

-- for (int i = start; i <= end; ++i) ret << i, with the number of rounds.
unfoldable pub pages_from : ℕ → ℕ → List ℕ
pages_from zero i = []
pages_from (suc rounds) i = i ∷ pages_from rounds (i + 1)

-- The loop up to an end: `none` is the loop that does not stop, as no int is greater than the end.
abbrev pub pages_to : ℕ → ℤ → Option (List ℕ)
pages_to first (negsuc n) = some []
pages_to first (pos end) =
    if end == 2 ^ 31 - 1 then none else some (pages_from (end + 1 - first) first)

unfoldable pub range : Paginator → Option (List ℕ)
unfolding bar_first bar_end pages_from
range p = pages_to (bar_first p) (bar_end p)
