-- ===== src/Matrix/Highlight/Pointer.antt =====
-- What the mouse leaves behind on the cells.
use pact_broker.Prelude.{
  String, Bool, true, false, not, ◌&&◌, ◌||◌, List, [], ◌∷◌, ◌≡◌, refl, ap₂, All, arith,
}
use pact_broker.Matrix.Highlight.{Cell, Selector, highlight, un_highlight}

module _ (selects : Selector) (td : Cell) (field : String) where
  -- Where no cell is highlighted, the mouse leaves all cells as they were when it comes to a cell and goes
  -- elsewhere, also if it goes to the cell's own link and comes back in between.
  pub un_highlight-highlight_twice :
      (cells : List Cell)
      → All (λ c. c.warned ≡ false) cells
      → let over = highlight selects td field in
        un_highlight selects td false field (over (un_highlight selects td true field (over cells)))
        ≡ cells
  unfolding highlight un_highlight
  un_highlight-highlight_twice [] h = refl
  un_highlight-highlight_twice (c ∷ cells) h =
      let meant = selects field (td.data_of field) c.data_of in
      let same : (not meant && (meant || (meant || c.warned))) ≡ c.warned = ground arith in
      ap₂ (λ (w : Bool) (l : List Cell). record c { warned = w } ∷ l) same
        (un_highlight-highlight_twice cells h.1)
