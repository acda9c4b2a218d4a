-- ===== src/Pagination/Window.antt =====
-- The range of page numbers around the current page, as `render` of
-- public/javascripts/pagination.js computes it. `rangeStart` may fall below 0 on the way.
pub mod Bounds
use pact_broker.Prelude.{ℕ, ◌+◌, ◌*◌, min, Bool, ltb, if◌then◌else◌}
use pact_broker.Prelude.Int.{ℤ, pos, pos_part, sub_ℕ, ltb_ℤ, leb_ℤ}

pub record Range : Type 0 where
  pub start : ℕ
  pub stop : ℕ

-- `rangeStart` and `rangeEnd` after `if (rangeEnd > totalPage) { … }`.
abbrev pulled_back : ℕ → ℕ → ℕ → ℤ × ℕ
pulled_back total_page page_range current_page =
    if ltb total_page (current_page + page_range)
    then (
      let start = sub_ℕ total_page (page_range * 2) in if ltb_ℤ start (pos 1) then pos 1 else start,
      total_page,
    )
    else (sub_ℕ current_page page_range, current_page + page_range)

-- … and after `if (rangeStart <= 1) { … }`; past that test the start is a positive number.
unfoldable pub range_around : (total_page page_range current_page : ℕ) → Range
range_around total_page page_range current_page =
    let (start, stop) = pulled_back total_page page_range current_page in
    if leb_ℤ start (pos 1)
    then record { start = 1; stop = min (page_range * 2 + 1) total_page }
    else record { start = pos_part start; stop = stop }
