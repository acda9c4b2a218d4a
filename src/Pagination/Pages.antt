-- ===== src/Pagination/Pages.antt =====
-- Counting pages and cutting the data into pages: `getTotalNumber`, `getTotalPage` and
-- `getDataFragment` of public/javascripts/pagination.js.
pub mod Count
pub mod Fragments
use pact_broker.Prelude.{
  ℕ, zero, suc, ◌+◌, ◌-◌, ◌*◌, ◌/◌, min, Option, none, some, List, ◌==◌, if◌then◌else◌, take, drop,
}

-- `this.model.totalNumber || attributes.totalNumber || 0`; 0 and `undefined` count as false.
unfoldable pub get_total_number : Option ℕ → ℕ → ℕ
get_total_number none attribute = attribute
get_total_number (some zero) attribute = attribute
get_total_number (some (suc n)) attribute = suc n

-- `Math.ceil(number / size)`, for a size that is not 0.
abbrev pub ceil_div : ℕ → ℕ → ℕ
ceil_div number size = (number + (size - 1)) / size

-- `none` is the quotient by 0, which is `Infinity` or `NaN` in the source.
unfoldable pub get_total_page : (total_number page_size : ℕ) → Option ℕ
get_total_page number size = if size == 0 then none else some (ceil_div number size)

-- `dataSource.slice(start - 1, end)`: the entries from `start - 1` up to, not including, `end`.
-- The page numbers begin at 1.
unfoldable pub get_data_fragment {ℓ} : {A : Type ℓ} → ℕ → ℕ → List A → ℕ → List A
get_data_fragment size total_number source number =
    let start = size * (number - 1) + 1 in
    let stop = min (number * size) total_number in
    take (stop - (start - 1)) (drop (start - 1) source)
