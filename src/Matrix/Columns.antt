-- ===== src/Matrix/Columns.antt =====
-- The cells of the matrix under the mouse: the handlers that public/javascripts/matrix.js adds to the cells
-- of its columns when the page is ready.
pub mod Tour
use pact_broker.Prelude.{ℕ, String, Bool, Option, none, some, List, [], ◌∷◌, get_elem?}
use pact_broker.Matrix.Highlight.{Cell, Selector, highlight, un_highlight}

-- The classes of the cells that have handlers.
pub data Column : Type 0 where
  consumer consumer_version pact_published provider provider_version : Column

abbrev pub field_of : Column → String
field_of consumer = "consumer-name"
field_of consumer_version = "consumer-version-id"
field_of pact_published = "pact-version-sha"
field_of provider = "provider-name"
field_of provider_version = "provider-version-id"

-- The mouse comes to the cell with the number, or leaves it, for its own link or for something else.
pub data Event : Type 0 where
  mouse_over : ℕ → Event
  mouse_out : (i : ℕ) (to_link : Bool) → Event

-- What an event does at a cell, if it is one of these columns.
handled : Option Column → Option Cell → List Cell → (Cell → String → List Cell) → List Cell
handled none td cells handle = cells
handled (some column) none cells handle = cells
handled (some column) (some td) cells handle = handle td (field_of column)

-- `column_of`: the column of the cell with a number, if it is one of these.
unfoldable pub step : Selector → (column_of : ℕ → Option Column) → Event → List Cell → List Cell
unfolding handled
step selects column_of (mouse_over i) cells =
    handled (column_of i) (get_elem? cells i) cells (λ td field. highlight selects td field cells)
step selects column_of (mouse_out i to_link) cells =
    handled (column_of i) (get_elem? cells i) cells
      (λ td field. un_highlight selects td to_link field cells)

unfoldable pub run : Selector → (column_of : ℕ → Option Column) → List Event → List Cell → List Cell
unfolding step
run selects column_of [] cells = cells
run selects column_of (e ∷ events) cells =
    run selects column_of events (step selects column_of e cells)
