-- ===== src/Examples/Pages.antt =====
-- The page links, the fragments and the templates of public/javascripts/pagination.js at concrete
-- inputs.
use pact_broker.Prelude.{
  ℕ, ◌+◌, ◌-◌, ◌*◌, ◌≤◌, ◌≡◌, ◌↔◌, refl, min, max, String, some, List, [], ◌∷◌, ◌++◌, ◌<>◌, arith,
  any, between, count_up, truthy, if◌then◌else◌,
}
use pact_broker.Pagination.Options.{defaults}
use pact_broker.Pagination.Pages.{get_total_page}
use pact_broker.Pagination.Pages.Count.{get_total_page_iff}
use pact_broker.Pagination.Pages.Fragments.{fragments, fragments_all}
use pact_broker.Pagination.Window.{range_around}
use pact_broker.Pagination.Window.Bounds.{range_around_lem}
use pact_broker.Pagination.Numbers.{page_numbers}
use pact_broker.Pagination.Numbers.Shown.{draws}
use pact_broker.Pagination.Numbers.Order.{AscendsIn, page_numbers-AscendsIn}
use pact_broker.Pagination.Template.{Replace}
use pact_broker.Pagination.Markup.Browsing.{browse, browse-between}
use pact_broker.Pagination.Render.{range_or_zero}
use pact_broker.Pagination.Numbers.Shown.{is_expected, page_numbers-expected}

abbrev numbers : List ℕ
numbers = 1 ∷ 2 ∷ 3 ∷ 4 ∷ 5 ∷ []

range_around_lem_example :
    ((range_around 20 2 19).start ≡ max 1 (min (19 - 2) (20 - 2 * 2)))
    × ((range_around 20 2 19).stop ≡ min 20 ((range_around 20 2 19).start + 2 * 2))
range_around_lem_example = range_around_lem 20 2 19 (omega arith) (omega arith)

page_numbers-AscendsIn_example : AscendsIn 1 21 (page_numbers defaults 20 10 (range_around 20 2 10))
page_numbers-AscendsIn_example = page_numbers-AscendsIn defaults 20 2 10

three_pages : get_total_page 5 2 ≡ some 3
unfolding get_total_page
three_pages = refl

get_total_page_iff_example : (5 ≤ 3 * 2) ↔ (3 ≤ 3)
get_total_page_iff_example = get_total_page_iff 5 2 three_pages 3

-- Six entries, of which the total tells five.
fragments_all_example : fragments 2 5 (numbers ++ 6 ∷ []) (count_up 1 3) ≡ numbers
fragments_all_example = fragments_all 2 5 (numbers ++ 6 ∷ []) three_pages

-- A replacement that puts each value behind the text, and one that loses the text.
abbrev appended : Replace
appended key value text = text <> value

abbrev lost : Replace
lost key value text = if truthy value then text <> value else ""

abbrev both : List (String × String)
both = ("currentPage", "2") ∷ ("totalPage", "9") ∷ []

browse-between_example : browse defaults 5 9 2 ≡ between 2 5
browse-between_example = browse-between defaults 5 9 2 refl (omega arith) (omega arith)

page_numbers-expected_example :
    any
      (draws 1)
      (page_numbers defaults 20 10 (range_around 20 (range_or_zero defaults.page_range) 10))
    ≡ is_expected defaults 20 10 1
page_numbers-expected_example = page_numbers-expected defaults 20 10 1
