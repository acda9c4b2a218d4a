-- ===== src/Matrix/Highlight/Again.antt =====
-- Highlighting cells of public/javascripts/matrix.js, once and again, and taking it back.
use pact_broker.Prelude.{
  ℕ, zero, suc, String, Bool, true, false, not, ◌&&◌, ◌||◌, some, List, [], ◌∷◌, ◌≡◌, refl, ap, ap₂,
  ◌∙◌, get_elem?, All, map, arith,
}
use pact_broker.Matrix.Highlight.{Cell, Selector, highlight, un_highlight}

module _ (selects : Selector) (td : Cell) (field : String) where
  pub highlight_twice :
      (cells : List Cell)
      → highlight selects td field (highlight selects td field cells)
        ≡ highlight selects td field cells
  unfolding highlight
  highlight_twice [] = refl
  highlight_twice (c ∷ cells) =
      let meant = selects field (td.data_of field) c.data_of in
      let same : (meant || (meant || c.warned)) ≡ (meant || c.warned) = ground arith in
      ap₂ (λ (w : Bool) (l : List Cell). record c { warned = w } ∷ l) same (highlight_twice cells)

  pub un_highlight-highlight :
      (cells : List Cell)
      → All (λ c. c.warned ≡ false) cells
      → un_highlight selects td false field (highlight selects td field cells) ≡ cells
  unfolding highlight un_highlight
  un_highlight-highlight [] h = refl
  un_highlight-highlight (c ∷ cells) h =
      let meant = selects field (td.data_of field) c.data_of in
      let same : (not meant && (meant || c.warned)) ≡ c.warned = ground arith in
      ap₂ (λ (w : Bool) (l : List Cell). record c { warned = w } ∷ l) same
        (un_highlight-highlight cells h.1)

  -- Highlighting leaves the data of a cell.
  pub get_elem?-highlight :
      (cells : List Cell) (i : ℕ) {d : Cell}
      → get_elem? cells i ≡ some d
      → (e : Cell) × (get_elem? (highlight selects td field cells) i ≡ some e)
        × (e.data_of ≡ d.data_of)
  unfolding highlight
  get_elem?-highlight [] i h = absurd (cc)
  get_elem?-highlight (c ∷ cells) zero {d} h =
      let same : c ≡ d = cc in (_, refl, ap (λ (x : Cell). x.data_of) same)
  get_elem?-highlight (c ∷ cells) (suc i) h = get_elem?-highlight cells i h

-- Only the data of the cell under the mouse matters.
module _ (selects : Selector) (a b : Cell) (field : String) (cells : List Cell)
    (same : a.data_of ≡ b.data_of) where
  pub highlight_same : highlight selects a field cells ≡ highlight selects b field cells
  unfolding highlight
  highlight_same =
      ap
        (λ (d : String → String).
          map {A = Cell} {B = Cell}
            (λ c. record c { warned = selects field (d field) c.data_of || c.warned }) cells)
        same

  pub un_highlight_same :
      un_highlight selects a false field cells ≡ un_highlight selects b false field cells
  unfolding un_highlight
  un_highlight_same =
      ap
        (λ (d : String → String).
          map {A = Cell} {B = Cell}
            (λ c. record c { warned = not (selects field (d field) c.data_of) && c.warned }) cells)
        same

pub un_highlight_link :
    (selects : Selector) (td : Cell) (field : String) (cells : List Cell)
    → un_highlight selects td true field cells ≡ cells
unfolding un_highlight
un_highlight_link selects td field cells = refl

-- Where no cell is highlighted, just the cells that are meant are highlighted then.
pub warned-highlight :
    (selects : Selector) (td : Cell) (field : String) (cells : List Cell) (j : ℕ) {c : Cell}
    → All (λ x. x.warned ≡ false) cells
    → get_elem? cells j ≡ some c
    → get_elem? (highlight selects td field cells) j
      ≡ some (record c { warned = selects field (td.data_of field) c.data_of })
unfolding highlight
warned-highlight selects td field [] j still h = absurd (cc)
warned-highlight selects td field (x ∷ cells) zero {c} still h =
    let same : x ≡ c = cc in
    let lit : (selects field (td.data_of field) x.data_of || x.warned)
        ≡ selects field (td.data_of field) x.data_of =
      ground arith in
    ap (λ (w : Bool). some (record x { warned = w })) lit
    ∙ ap (λ (y : Cell). some (record y { warned = selects field (td.data_of field) y.data_of }))
        same
warned-highlight selects td field (x ∷ cells) (suc j) still h =
    warned-highlight selects td field cells j still.1 h
