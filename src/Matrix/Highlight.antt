-- ===== src/Matrix/Highlight.antt =====
-- The cells of the matrix that belong together: `highlightPactPublicationsWithSameData` and
-- `unHighlightPactPublicationsWithSameData` of public/javascripts/matrix.js.
pub mod Pointer
pub mod Again
use pact_broker.Prelude.{
  String, Bool, true, false, not, ◌&&◌, ◌||◌, List, [], ◌∷◌, map, if◌then◌else◌,
}

-- The data of a cell, by their names, and whether it has the class "bg-warning".
pub record Cell : Type 0 where
  pub data_of : String → String
  pub warned : Bool

-- What `*[data-<field>="<value>"]` selects is a parameter; it looks at the data alone.
abbrev pub Selector : Type 0
Selector = (field value : String) → (String → String) → Bool

unfoldable pub highlight : Selector → Cell → (field : String) → List Cell → List Cell
highlight selects td field cells =
    map {A = Cell} {B = Cell}
      (λ c. record c { warned = selects field (td.data_of field) c.data_of || c.warned }) cells

-- `to_link`: the mouse goes to the cell's own link, which leaves everything as it is.
unfoldable pub un_highlight :
    Selector → Cell → (to_link : Bool) → (field : String) → List Cell → List Cell
un_highlight selects td to_link field cells =
    if to_link
    then cells
    else map {A = Cell} {B = Cell}
        (λ c. record c { warned = not (selects field (td.data_of field) c.data_of) && c.warned })
        cells
