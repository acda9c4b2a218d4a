-- ===== src/Pagination/Window/Bounds.antt =====
-- The range holds the current page, lies within the pages and is as wide as it can be.
use pact_broker.Prelude.{ℕ, ◌+◌, ◌*◌, ◌-◌, ◌≤◌, ◌≡◌, min, max, arith}
use pact_broker.Pagination.Window.{range_around}

-- For a current page among the pages, the range lies among the pages and holds the current page.
pub range_around_bounds :
    (total_page page_range current_page : ℕ)
    → 1 ≤ current_page
    → current_page ≤ total_page
    → let r = range_around total_page page_range current_page in
      (1 ≤ r.start) × (r.start ≤ current_page) × (current_page ≤ r.stop) × (r.stop ≤ total_page)
unfolding range_around
range_around_bounds total_page page_range current_page h k = ground arith

-- Whatever the current page is, among the pages or not, the range lies among the pages, and is empty only
-- where there are none.
pub range_around_total :
    (total_page page_range current_page : ℕ)
    → let r = range_around total_page page_range current_page in
      (1 ≤ r.start) × (r.start ≤ r.stop + 1) × (r.stop ≤ total_page) × (min 1 total_page ≤ r.stop)
unfolding range_around
range_around_total total_page page_range current_page = ground arith

-- It is wide by two page ranges and one, or by all the pages where there are fewer.
pub range_around_width :
    (total_page page_range current_page : ℕ)
    → 1 ≤ current_page
    → current_page ≤ total_page
    → let r = range_around total_page page_range current_page in
      r.stop + 1 - r.start ≡ min (page_range * 2 + 1) total_page
unfolding range_around
range_around_width total_page page_range current_page h k = ground arith

-- For a current page among the pages, the range in closed form: it starts the page range before
-- the current page, but no later than leaves room for twice the page range and no earlier than at
-- page 1, and it ends twice the page range after its start, or at the last page.
pub range_around_lem :
    (total_page page_range current_page : ℕ)
    → 1 ≤ current_page
    → current_page ≤ total_page
    → let r = range_around total_page page_range current_page in
      (r.start ≡ max 1 (min (current_page - page_range) (total_page - page_range * 2)))
      × (r.stop ≡ min total_page (r.start + page_range * 2))
unfolding range_around
range_around_lem total_page page_range current_page h k = ground arith
