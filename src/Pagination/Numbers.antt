-- ===== src/Pagination/Numbers.antt =====
-- The list of page numbers: `generatePageNumbersHTML` of public/javascripts/pagination.js. Each
-- piece of markup that a round of a loop adds is an item.
pub mod Shown
pub mod Order
use pact_broker.Prelude.{
  ℕ, ◌+◌, ◌-◌, none, some, List, [], ◌∷◌, ◌++◌, map, ◌==◌, leb, if◌then◌else◌, between, count_up,
}
use pact_broker.Pagination.Options.{Attributes}
use pact_broker.Pagination.Window.{Range}

pub data Item : Type 0 where
  active : ℕ → Item
  link : ℕ → Item
  first : Item
  last : ℕ → Item
  ellipsis : Item

-- A round of a loop that marks the current page.
abbrev pub page_item : ℕ → ℕ → Item
page_item current_page i = if i == current_page then active i else link i

-- The pages before the range; the loop runs while `i < rangeStart`, from 1.
unfoldable pub leading : Attributes → ℕ → ℕ → List Item
leading attributes current_page start =
    if leb start 3
    then map (page_item current_page) (count_up 1 (start - 1))
    else (if attributes.show_first_on_ellipsis_show then first ∷ [] else []) ++ ellipsis ∷ []

-- The pages after the range. The test `rangeEnd >= totalPage - 2` is written without `-`.
unfoldable pub trailing : Attributes → ℕ → ℕ → List Item
trailing attributes total_page stop =
    if leb total_page (stop + 2)
    then map link (between (stop + 1) total_page)
    else ellipsis ∷ (if attributes.show_last_on_ellipsis_show then last total_page ∷ [] else [])

unfoldable pub page_numbers : Attributes → (total_page current_page : ℕ) → Range → List Item
unfolding leading trailing
page_numbers attributes total_page current_page range = elim attributes.page_range [
  | none ↦ map (page_item current_page) (between 1 total_page)
  | some _ ↦
      leading attributes current_page range.start
      ++ (map (page_item current_page) (between range.start range.stop)
          ++ trailing attributes total_page range.stop)
]
