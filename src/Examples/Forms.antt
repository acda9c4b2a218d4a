-- ===== src/Examples/Forms.antt =====
-- The form of public/javascripts/matrix.js at a concrete input.
use pact_broker.Matrix.Highlight.{Cell, Selector}
use pact_broker.Matrix.Columns.{Column, consumer, provider}
use pact_broker.Matrix.Columns as Columns
use pact_broker.Matrix.Columns.Tour.{tour}
use pact_broker.Prelude.{
  ℕ, zero, suc, Option, List, some, get_elem?, str_eq, String, [], ◌∷◌, refl, true, false, ◌≡◌,
}
use pact_broker.Matrix.Form.{tag, Kept, kept_form}
use pact_broker.Matrix.Page.{ready, change, change_all, is_sent}
use pact_broker.Matrix.Page.Sent.{is_sent-change_all}
use pact_broker.Matrix.Columns.Tour.{run-tour_over}
use pact_broker.Prelude.{◌++◌}

abbrev all_shown : Kept
all_shown = record { shown = λ i f. true; off = λ i f. false }

-- Three selectors with values as the page gives them; the second one is changed.
abbrev types : List String
types = "specify-latest-tag" ∷ "specify-version" ∷ "specify-latest" ∷ []

abbrev changes : List (ℕ × String)
changes = (1, "specify-all-tagged") ∷ []

second_type :
    get_elem? (change_all kept_form changes (ready kept_form types all_shown)).types 1
    ≡ some "specify-all-tagged"
unfolding change_all change ready
second_type = refl

is_sent-change_all_example :
    is_sent kept_form (change_all kept_form changes (ready kept_form types all_shown)) 1 tag ≡ true
is_sent-change_all_example = is_sent-change_all kept_form types all_shown changes 1 second_type tag

abbrev by_value : Selector
by_value field value data_of = str_eq (data_of field) value

abbrev cell : String → Cell
cell name = record { data_of = λ field. name; warned = false }

abbrev cells : List Cell
cells = cell "Foo" ∷ cell "Bar" ∷ cell "Foo" ∷ []

abbrev columns : ℕ → Option Column
columns zero = some consumer
columns (suc i) = some provider

run-tour_over_example :
    (Columns.run by_value columns (tour ((1, 1) ∷ [])) cells ≡ cells)
    × (get_elem?
          (Columns.run by_value columns (tour ((1, 1) ∷ []) ++ Columns.mouse_over 0 ∷ []) cells)
          2
        ≡ some (record { data_of = λ field. "Foo"; warned = true }))
run-tour_over_example =
    run-tour_over by_value columns ((1, 1) ∷ []) cells 0 2 (refl, (refl, (refl, tt))) refl refl refl
