-- ===== src/Tests/Pages.antt =====
-- Runs of the code of src/tpaginator.cpp.
use tf.Base.{some, none, ◌^◌, ◌/◌, ℕ, ◌+◌, ◌≤◌, ◌<◌, min, ◌≡◌, ◌↔◌, refl, [], ◌∷◌, arith}
use tf.Base.Int.{pos, negsuc}
use tf.Paginator.{
  calculate_num_pages, bar_start, bar_end, bar_first, Paginator, new, set_current_page,
  set_item_total_count, range, pages_from, current, offset, item_count_of_current_page, has_page,
}
use tf.Paginator.Pages.{IsValid, at_page, page_of, page_of-item}
use tf.Paginator.Bar.{range-window}
use tf.Paginator.Reach.{Reachable, created, total_set, page_set, Reachable-IsValid}

-- 95 items of which a page shows 10, at page 7, with a bar of 5.
abbrev shop : Paginator
shop = set_current_page (pos 7) (set_item_total_count (pos 95) (new (negsuc 3) (pos 10) (pos 4)))

shop-Reachable : Reachable shop
shop-Reachable = page_set (pos 7) (total_set (pos 95) (created (negsuc 3) (pos 10) (pos 4)))

shop-IsValid : IsValid shop
shop-IsValid = Reachable-IsValid shop-Reachable

shop-state : (shop.items_total ≡ 95) × (shop.num_pages ≡ 10)
unfolding set_current_page set_item_total_count new calculate_num_pages
shop-state = (refl, refl)

page_of-item_example :
    ((offset (at_page shop 10) ≤ 93)
      × (93 < offset (at_page shop 10) + item_count_of_current_page (at_page shop 10)))
    ↔ (10 ≡ page_of shop 93)
page_of-item_example =
    page_of-item shop 93 10 shop-IsValid (omega (arith, shop-state.0)) (omega arith)
      (omega (arith, shop-state.1))

shop-small : shop.num_pages + shop.mid_range / 2 + 1 < 2 ^ 31
unfolding set_current_page set_item_total_count new calculate_num_pages
shop-small = omega arith

-- The bar shows the pages 5 to 9.
range-window_example :
    (first : ℕ) × (range shop ≡ some (pages_from (min shop.mid_range shop.num_pages) first))
    × (1 ≤ first)
    × (first ≤ current shop)
    × (current shop < first + min shop.mid_range shop.num_pages)
    × (first + min shop.mid_range shop.num_pages ≤ shop.num_pages + 1)
range-window_example = range-window shop shop-IsValid shop-small

range-shop : range shop ≡ some (5 ∷ 6 ∷ 7 ∷ 8 ∷ 9 ∷ [])
unfolding range set_current_page set_item_total_count new calculate_num_pages current has_page
    bar_start bar_end bar_first pages_from
range-shop = refl

-- The last page of as many as an int can count: the end of the bar wraps around, and where it does not,
-- the counter of the loop does.
range-wraps :
    range (set_current_page (pos 2147483647) (new (pos 2147483647) (pos 1) (pos 5))) ≡ some []
unfolding range set_current_page new calculate_num_pages current has_page bar_start bar_end
    bar_first pages_from
range-wraps = refl

range-runs_on :
    range (set_current_page (pos 2147483647) (new (pos 2147483647) (pos 1) (pos 1))) ≡ none
unfolding range set_current_page new calculate_num_pages current has_page bar_start bar_end
    bar_first pages_from
range-runs_on = refl
