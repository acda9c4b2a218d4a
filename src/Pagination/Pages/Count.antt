-- ===== src/Pagination/Pages/Count.antt =====
-- The number of pages is the least that holds all entries.
use pact_broker.Prelude.{ℕ, ◌*◌, ◌≤◌, ◌<◌, ◌≡◌, ◌↔◌, some, arith}
use pact_broker.Pagination.Pages.{ceil_div, get_total_page}

times_le : (a b c : ℕ) → a ≤ b → a * c ≤ b * c
times_le a b c h = grind arith

ceil_div_enough : (number size : ℕ) → 0 < size → number ≤ ceil_div number size * size
ceil_div_enough number size h = grind arith

ceil_div_least :
    (number size fewer : ℕ) → 0 < size → number ≤ fewer * size → ceil_div number size ≤ fewer
ceil_div_least number size fewer h k = grind arith

-- Where there is a number of pages, it is the least that holds all entries: a number of full pages
-- holds every entry exactly if it is no smaller.
pub get_total_page_iff :
    (number size : ℕ) {pages : ℕ}
    → get_total_page number size ≡ some pages
    → (enough : ℕ) → (number ≤ enough * size) ↔ (pages ≤ enough)
unfolding get_total_page
get_total_page_iff number size {pages} h enough = (
  λ k. ground (arith, ceil_div_least number size enough),
  λ k. ground (arith, ceil_div_enough number size, times_le pages enough size),
)
