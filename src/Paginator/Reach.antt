-- ===== src/Paginator/Reach.antt =====
-- The states that the public operations of src/tpaginator.h lead to.
use tf.Base.Int.{ℤ, pos}
use tf.Paginator.{
  Paginator, new, set_item_total_count, set_item_count_per_page, set_mid_range, set_current_page,
}
use tf.Paginator.Pages.{IsValid, calculate_num_pages-IsValid}

-- The constructor, and each of the setters.
pub data Reachable : Paginator → Type 0 where
  created : (total per_page range : ℤ) → Reachable (new total per_page range)
  total_set : {p : Paginator} (n : ℤ) → Reachable p → Reachable (set_item_total_count n p)
  per_page_set : {p : Paginator} (n : ℤ) → Reachable p → Reachable (set_item_count_per_page n p)
  range_set : {p : Paginator} (n : ℤ) → Reachable p → Reachable (set_mid_range n p)
  page_set : {p : Paginator} (n : ℤ) → Reachable p → Reachable (set_current_page n p)

set_current_page-IsValid : (n : ℤ) (p : Paginator) → IsValid p → IsValid (set_current_page n p)
unfolding set_current_page
set_current_page-IsValid n p v = record {
  per_page = v.per_page;
  odd = v.odd;
  some_page = v.some_page;
  enough = v.enough;
  needed = v.needed;
}

-- However a paginator was made and changed, whatever numbers were given, its state is a valid one:
-- a page has an item at least, the width of the bar is odd, and the pages hold all the items with
-- no page too many.
pub Reachable-IsValid : {p : Paginator} → Reachable p → IsValid p
unfolding new set_item_total_count set_item_count_per_page set_mid_range
Reachable-IsValid (created total per_page range) =
    calculate_num_pages-IsValid total per_page range (pos 1)
Reachable-IsValid (total_set {p} n r) =
    calculate_num_pages-IsValid n (pos p.items_per_page) (pos p.mid_range) p.current_page
Reachable-IsValid (per_page_set {p} n r) =
    calculate_num_pages-IsValid (pos p.items_total) n (pos p.mid_range) p.current_page
Reachable-IsValid (range_set {p} n r) =
    calculate_num_pages-IsValid (pos p.items_total) (pos p.items_per_page) n p.current_page
Reachable-IsValid (page_set {p} n r) = set_current_page-IsValid n p (Reachable-IsValid r)
