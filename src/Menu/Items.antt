-- ===== src/Menu/Items.antt =====
-- The items of a menu of public/javascripts/material-menu.js: their types, and what a click does.
pub mod Clicks
use pact_broker.Prelude.{
  ℕ, zero, suc, ◌+◌, String, Bool, true, false, not, ◌&&◌, ◌||◌, Option, none, some, List, [], ◌∷◌,
  ◌++◌, ◌==◌, str_eq, if◌then◌else◌, get_elem?,
}

pub data Kind : Type 0 where
  toggle radio divider label submenu normal : Kind

-- The types by their names; the source logs any other and passes over the item.
unfoldable pub kind_of : String → Option Kind
kind_of name =
    if str_eq name "toggle"
    then some toggle
    else if str_eq name "radio"
    then some radio
    else if str_eq name "divider"
    then some divider
    else if str_eq name "label"
    then some label
    else if str_eq name "submenu"
    then some submenu
    else if str_eq name "normal"
    then some normal
    else none

-- The settings of an item; what is left out is `none`, and has the defaults of the source.
pub record Settings : Type 0 where
  pub text : Option String
  pub type : Option String
  pub radio_group : Option String
  pub checked : Bool

-- An item with its element: its number, and whether the element has the class "unchecked".
pub record Item : Type 0 where
  pub text : String
  pub kind : Kind
  pub radio_group : String
  pub checked : Bool
  pub element : ℕ
  pub unchecked : Bool

abbrev pub or_default : Option String → String → String
or_default none d = d
or_default (some s) d = s

-- Only the elements of toggles and radios are made with the class.
abbrev pub starts_unchecked : Kind → Bool → Bool
starts_unchecked toggle checked = not checked
starts_unchecked radio checked = not checked
starts_unchecked _ checked = false

-- A round of the loop over the settings; `id` is the number of the next element.
unfoldable pub make_item : ℕ → Settings → Option Item
unfolding kind_of
make_item id s = elim (kind_of (or_default s.type "normal")) [
  | none ↦ none
  | some kind ↦ some (record {
    text = or_default s.text "";
    kind = kind;
    radio_group = or_default s.radio_group "default";
    checked = s.checked;
    element = id;
    unchecked = starts_unchecked kind s.checked;
  })
]

-- All rounds: the items made, and the number after the last.
unfoldable pub make_items : ℕ → List Settings → List Item × ℕ
make_items id [] = ([], id)
make_items id (s ∷ rest) = elim (make_item id s) [
  | none ↦ make_items id rest
  | some item ↦ let (made, after) = make_items (suc id) rest in (item ∷ made, after)
]

-- `item.checked = !item.checked`, with the class taken off or put on before.
toggle_item : Item → Item
toggle_item item = record item { checked = not item.checked; unchecked = item.checked }

-- The loop of a radio's click over all items of the menu, from number `i` on: those of the group
-- lose their mark, all but the clicked one, number `k`, get the class, and that one loses it.
mark_group : (group : String) → (k i : ℕ) → List Item → List Item
mark_group group k i [] = []
mark_group group k i (item ∷ items) =
    (if str_eq item.radio_group group
      then record item { checked = false; unchecked = not (i == k) }
      else item)
    ∷ mark_group group k (suc i) items

change_at : ℕ → (Item → Item) → List Item → List Item
change_at k f [] = []
change_at zero f (item ∷ items) = f item ∷ items
change_at (suc k) f (item ∷ items) = item ∷ change_at k f items

-- The call of an item's own `click`: the number of the item, and the mark that it is told, if any.
pub record Call : Type 0 where
  pub item : ℕ
  pub told : Option Bool

abbrev pub checked_at : ℕ → List Item → Bool
checked_at k items = elim (get_elem? items k) [ none ↦ false | some item ↦ item.checked ]

-- The handler of a click by the item's type: the items after it, and the call that it makes. Dividers
-- and labels have none.
click_by : Kind → String → ℕ → List Item → List Item × Option Call
unfolding mark_group change_at toggle_item
click_by toggle group k items =
    let changed = change_at k toggle_item items in
    (changed, some (record { item = k; told = some (checked_at k changed) }))
click_by radio group k items =
    let changed = mark_group group k 0 items in
    (changed, some (record { item = k; told = some (checked_at k changed) }))
click_by divider group k items = (items, none)
click_by label group k items = (items, none)
click_by submenu group k items = (items, some (record { item = k; told = none }))
click_by normal group k items = (items, some (record { item = k; told = none }))

unfoldable pub click : ℕ → List Item → List Item × Option Call
unfolding click_by
click k items = elim (get_elem? items k) [
  | none ↦ (items, none)
  | some item ↦ click_by item.kind item.radio_group k items
]
