-- ===== src/Matrix/Columns/Tour.antt =====
-- The mouse leaves nothing highlighted, wherever it goes.
use pact_broker.Prelude.{
  ℕ, zero, suc, true, false, Option, none, some, List, [], ◌∷◌, ◌++◌, ◌≡◌, refl, ap, ◌∙◌, get_elem?,
  All, Option-cases, inl, inr,
}
use pact_broker.Matrix.Highlight.{Cell, Selector, highlight}
use pact_broker.Matrix.Highlight.Again.{
  highlight_twice, un_highlight-highlight, get_elem?-highlight, highlight_same, un_highlight_same,
  un_highlight_link, warned-highlight,
}
use pact_broker.Matrix.Columns.{Column, field_of, Event, mouse_over, mouse_out, handled, step, run}

-- Going to the link of a cell and back, so many times.
abbrev pub link_visits : (i visits : ℕ) → List Event
link_visits i zero = []
link_visits i (suc n) = mouse_out i true ∷ mouse_over i ∷ link_visits i n

-- The way of the mouse over the cells with the given numbers, with so many visits to the link of each.
abbrev pub tour : List (ℕ × ℕ) → List Event
tour [] = []
tour ((i, visits) ∷ stops) = mouse_over i ∷ (link_visits i visits ++ mouse_out i false ∷ tour stops)

module _ (selects : Selector) (column_of : ℕ → Option Column) where
  run-append :
      (before after : List Event) (cells : List Cell)
      → run selects column_of (before ++ after) cells
        ≡ run selects column_of after (run selects column_of before cells)
  unfolding run
  run-append [] after cells = refl
  run-append (e ∷ before) after cells = run-append before after (step selects column_of e cells)

  -- What the events at the cell `i` do to the cells, `lit` as they are while the mouse is there.
  record IsStop (i : ℕ) (cells lit : List Cell) : Type 0 where
    enters : step selects column_of (mouse_over i) cells ≡ lit
    to_link : step selects column_of (mouse_out i true) lit ≡ lit
    from_link : step selects column_of (mouse_over i) lit ≡ lit
    leaves : step selects column_of (mouse_out i false) lit ≡ cells

  run-link_visits :
      (i visits : ℕ) (cells lit : List Cell)
      → IsStop i cells lit
      → run selects column_of (link_visits i visits) lit ≡ lit
  unfolding run
  run-link_visits i zero cells lit stop = refl
  run-link_visits i (suc n) cells lit stop =
      ap (run selects column_of (link_visits i n))
        (ap (step selects column_of (mouse_over i)) stop.to_link ∙ stop.from_link)
      ∙ run-link_visits i n cells lit stop

  run-stop :
      (i visits : ℕ) (rest : List Event) (cells lit : List Cell)
      → IsStop i cells lit
      → run selects column_of
          (mouse_over i ∷ (link_visits i visits ++ mouse_out i false ∷ rest))
          cells
        ≡ run selects column_of rest cells
  unfolding run
  run-stop i visits rest cells lit stop =
      let leave = mouse_out i false ∷ rest in
      ap (run selects column_of (link_visits i visits ++ leave)) stop.enters
      ∙ run-append (link_visits i visits) leave lit
      ∙ ap (run selects column_of leave) (run-link_visits i visits cells lit stop)
      ∙ ap (run selects column_of rest) stop.leaves

  no_column : (i : ℕ) (cells : List Cell) → column_of i ≡ none → IsStop i cells cells
  unfolding step handled
  no_column i cells h = record { enters = rw h; to_link = rw h; from_link = rw h; leaves = rw h }

  no_cell :
      (i : ℕ) (cells : List Cell) {column : Column}
      → column_of i ≡ some column
      → get_elem? cells i ≡ none
      → IsStop i cells cells
  unfolding step handled
  no_cell i cells h k = record {
    enters = rw (h, k);
    to_link = rw (h, k);
    from_link = rw (h, k);
    leaves = rw (h, k);
  }

  a_cell :
      (i : ℕ) (cells : List Cell) {column : Column} {td : Cell}
      → All (λ c. c.warned ≡ false) cells
      → column_of i ≡ some column
      → get_elem? cells i ≡ some td
      → IsStop i cells (highlight selects td (field_of column) cells)
  unfolding step handled
  a_cell i cells {column} {td} still h k =
      let (e, there, same) = get_elem?-highlight selects td (field_of column) cells i k in
      record {
        enters = rw (h, k);
        to_link = rw (h, there) (un_highlight_link selects e (field_of column) _);
        from_link =
            rw (h, there)
              (highlight_same selects e td (field_of column) _ same
                ∙ highlight_twice selects td (field_of column) cells);
        leaves =
            rw (h, there)
              (un_highlight_same selects e td (field_of column) _ same
                ∙ un_highlight-highlight selects td (field_of column) cells still);
      }

  every_visit :
      (i : ℕ) (cells : List Cell)
      → All (λ c. c.warned ≡ false) cells
      → (lit : List Cell) × IsStop i cells lit
  every_visit i cells still = elim (Option-cases (column_of i)) [
    | inl nowhere ↦ (cells, no_column i cells nowhere)
    | inr (column, h) ↦ elim (Option-cases (get_elem? cells i)) [
      | inl missing ↦ (cells, no_cell i cells h missing)
      | inr (td, k) ↦ (_, a_cell i cells still h k)
    ]
  ]

  -- Where no cell is highlighted, the mouse leaves all cells as they were once it has left the last cell
  -- of its way, however many cells of whatever columns it visits, and however often it goes to the
  -- link of a cell and back.
  pub run-tour :
      (stops : List (ℕ × ℕ)) (cells : List Cell)
      → All (λ c. c.warned ≡ false) cells
      → run selects column_of (tour stops) cells ≡ cells
  unfolding run
  run-tour [] cells still = refl
  run-tour ((i, visits) ∷ stops) cells still =
      let (lit, stop) = every_visit i cells still in
      run-stop i visits (tour stops) cells lit stop ∙ run-tour stops cells still

  step-over :
      (i : ℕ) (cells : List Cell) {column : Column} {td : Cell}
      → column_of i ≡ some column
      → get_elem? cells i ≡ some td
      → step selects column_of (mouse_over i) cells ≡ highlight selects td (field_of column) cells
  unfolding step handled
  step-over i cells h k = rw (h, k)

  -- Where no cell was highlighted: once the mouse has left the last cell of its way, all cells are as they
  -- were; and while it is then over a cell of one of the columns, just the cells are highlighted that
  -- have the same data as this cell in the column's field, and are as they were otherwise.
  pub run-tour_over :
      (stops : List (ℕ × ℕ)) (cells : List Cell) (i j : ℕ) {column : Column} {td c : Cell}
      → All (λ x. x.warned ≡ false) cells
      → column_of i ≡ some column
      → get_elem? cells i ≡ some td
      → get_elem? cells j ≡ some c
      → (run selects column_of (tour stops) cells ≡ cells)
        × (get_elem? (run selects column_of (tour stops ++ mouse_over i ∷ []) cells) j
            ≡ some (record c {
              warned = selects (field_of column) (td.data_of (field_of column)) c.data_of;
            }))
  unfolding run
  run-tour_over stops cells i j {column} {td} {c} still h k here = (
    run-tour stops cells still,
    ap (λ (l : List Cell). get_elem? l j)
          (run-append (tour stops) (mouse_over i ∷ []) cells
            ∙ ap (step selects column_of (mouse_over i)) (run-tour stops cells still)
            ∙ step-over i cells h k)
        ∙ warned-highlight selects td (field_of column) cells j still here,
  )
