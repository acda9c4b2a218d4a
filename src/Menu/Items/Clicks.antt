-- ===== src/Menu/Items/Clicks.antt =====
-- What a click on an item shows and tells.
use pact_broker.Prelude.{
  ℕ, zero, suc, ◌+◌, String, Bool, false, not, some, List, [], ◌∷◌, ◌==◌, ◌≡◌, ap, ◌∙◌, str_eq,
  eq_refl, arith, if◌then◌else◌, get_elem?,
}
use pact_broker.Menu.Items.{
  Item, toggle, radio, mark_group, change_at, toggle_item, click, click_by, checked_at,
}

-- An item as a radio's click leaves it: `chosen` says whether it is the clicked one.
abbrev pub marked : String → Bool → Item → Item
marked group chosen item =
    if str_eq item.radio_group group
    then record item { checked = false; unchecked = not chosen }
    else item

get_elem?-mark_group :
    (group : String) (k i j : ℕ) (items : List Item) {item : Item}
    → get_elem? items j ≡ some item
    → get_elem? (mark_group group k i items) j ≡ some (marked group (i + j == k) item)
unfolding mark_group
get_elem?-mark_group group k i j [] h = cc
get_elem?-mark_group group k i zero (x ∷ items) {item} h =
    let start : i + zero ≡ i = omega arith in let same : x ≡ item = cc in rw (start, same)
get_elem?-mark_group group k i (suc j) (x ∷ items) {item} h =
    let step : suc i + j ≡ i + suc j = omega arith in
    get_elem?-mark_group group k (suc i) j items h
    ∙ ap (λ n. some (marked group (n == k) item)) step

get_elem?-change_at :
    (f : Item → Item) (k j : ℕ) (items : List Item) {item : Item}
    → get_elem? items j ≡ some item
    → get_elem? (change_at k f items) j ≡ some (if j == k then f item else item)
unfolding change_at
get_elem?-change_at f k j [] h = cc
get_elem?-change_at f zero zero (x ∷ items) {item} h = let same : x ≡ item = cc in rw same
get_elem?-change_at f zero (suc j) (x ∷ items) h = ground arith
get_elem?-change_at f (suc k) zero (x ∷ items) h = ground arith
get_elem?-change_at f (suc k) (suc j) (x ∷ items) {item} h =
    get_elem?-change_at f k j items h ∙ ground arith

checked_of :
    (k : ℕ) (items : List Item) {item : Item}
    → get_elem? items k ≡ some item
    → checked_at k items ≡ item.checked
checked_of k items h = rw (h, checked_at)

-- A click on a radio shows the clicked one alone of its group as chosen (its element is without
-- the class "unchecked", the others have it), and leaves the items of other groups as they were.
-- No item of the group is checked afterwards, and the handler is told `false`.
pub click-radio :
    (k j : ℕ) (items : List Item) {clicked item : Item}
    → get_elem? items k ≡ some clicked
    → clicked.kind ≡ radio
    → get_elem? items j ≡ some item
    → (get_elem? (click k items).0 j ≡ some (marked clicked.radio_group (j == k) item))
      × ((click k items).1 ≡ some (record { item = k; told = some false }))
unfolding click click_by
click-radio k j items {clicked} {item} at_k is_radio at_j =
    let group = clicked.radio_group in
    let start : (n : ℕ) → 0 + n ≡ n = λ n. omega arith in
    let at_click = get_elem?-mark_group group k 0 k items at_k in
    let told : checked_at k (mark_group group k 0 items) ≡ false =
      checked_of k (mark_group group k 0 items) at_click ∙ ground (arith, eq_refl group) in
    (
      rw (at_k, click, is_radio, click_by)
          (get_elem?-mark_group group k 0 j items at_j ∙ ground arith),
      rw (at_k, click, is_radio, click_by, told),
    )

-- A click on a toggle flips its mark and that of its element, and tells the new mark to its handler;
-- the other items stay as they were.
pub click-toggle :
    (k j : ℕ) (items : List Item) {clicked item : Item}
    → get_elem? items k ≡ some clicked
    → clicked.kind ≡ toggle
    → get_elem? items j ≡ some item
    → (get_elem? (click k items).0 j
        ≡ some (
            if j == k
            then record item { checked = not item.checked; unchecked = item.checked }
            else item))
      × ((click k items).1 ≡ some (record { item = k; told = some (not clicked.checked) }))
unfolding click click_by toggle_item
click-toggle k j items {clicked} {item} at_k is_toggle at_j =
    let at_click = get_elem?-change_at toggle_item k k items at_k in
    let told : checked_at k (change_at k toggle_item items) ≡ not clicked.checked =
      checked_of k (change_at k toggle_item items) at_click ∙ ground arith in
    (
      rw (at_k, click, is_toggle, click_by) (get_elem?-change_at toggle_item k j items at_j),
      rw (at_k, click, is_toggle, click_by, told),
    )

-- A toggle that is clicked twice is as it was, if its element showed its mark.
pub click-click_toggle :
    (k : ℕ) (items : List Item) {clicked : Item}
    → get_elem? items k ≡ some clicked
    → clicked.kind ≡ toggle
    → clicked.unchecked ≡ not clicked.checked
    → get_elem? (click k (click k items).0).0 k ≡ some clicked
click-click_toggle k items {clicked} at_k is_toggle shown =
    let flipped : Item = record clicked {
      checked = not clicked.checked;
      unchecked = clicked.checked;
    } in
    let once : get_elem? (click k items).0 k ≡ some flipped =
      (click-toggle k k items at_k is_toggle at_k).0 ∙ ground arith in
    (click-toggle k k (click k items).0 once is_toggle once).0 ∙ ground arith
