-- ===== src/Pagination/Render.antt =====
-- `render` of public/javascripts/pagination.js: from the entries and the attributes to the element.
use pact_broker.Prelude.{ℕ, String, Bool, true, false, Option, none, some, List, leb, if◌then◌else◌}
use pact_broker.Pagination.Options.{Attributes}
use pact_broker.Pagination.Pages.{get_total_number, get_total_page}
use pact_broker.Pagination.Window.{range_around}
use pact_broker.Pagination.Template.{Replace}
use pact_broker.Pagination.Markup.{View, generate_html}

-- The element with the class "paginationjs", and the call of the plug-in that made it.
pub record Nav : Type 0 where
  pub owner : ℕ
  pub html : String
  pub classes : List String
  pub visible : Bool

-- `attributes.pageRange || 0`.
abbrev pub range_or_zero : Option ℕ → ℕ
range_or_zero none = 0
range_or_zero (some n) = n

unfoldable pub view_of : Attributes → (model_total : Option ℕ) → (total_page : ℕ) → View
unfolding get_total_number range_around
view_of a model_total total_page = record {
  current_page = a.page_number;
  total_page = total_page;
  total_number = get_total_number model_total a.total_number;
  range = range_around total_page (range_or_zero a.page_range) a.page_number;
}

-- The page number of the model is never set, so that of the attributes is the current page. A
-- page size of 0 is left out, as `none`: the number of pages is then not finite, and the source draws
-- pages up to `Infinity` or `NaN`.
unfoldable pub render : Replace → Attributes → Option ℕ → Nav → Option Nav
unfolding get_total_page get_total_number view_of generate_html
render replace a model_total el =
    elim (get_total_page (get_total_number model_total a.total_number) a.page_size) [
      | none ↦ none
      | some total_page ↦ some (record el {
        html = generate_html replace a (view_of a model_total total_page);
        visible =
            if a.hide_when_less_than_one_page
            then (if leb total_page 1 then false else true)
            else el.visible;
      })
    ]
