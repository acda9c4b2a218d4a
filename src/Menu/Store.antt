-- ===== src/Menu/Store.antt =====
-- The menus of public/javascripts/material-menu.js: their numbers, `init`, `open`, `close`, and what
-- the page's events do to a menu. The id "sm-" with a number is the number.
pub mod Numbers
pub mod Events
pub mod Apart
pub mod Closing
use pact_broker.Prelude.{
  ℕ, zero, suc, ◌+◌, ◌-◌, String, Bool, true, false, not, Option, none, some, List, [], ◌∷◌, ◌==◌,
  if◌then◌else◌,
}
use pact_broker.Menu.Items.{Settings, Item, Call, make_items, click}

-- A menu: `fades` are the fadings whose end is still to come, `watchers` the handlers on the document
-- that `openMenu` has added.
pub record Menu : Type 0 where
  pub items : List Item
  pub position : String
  pub open_now : Bool
  pub fades : ℕ
  pub watchers : ℕ

-- `id` and `menus`, which holds each menu under the number of its parent.
pub record Store : Type 0 where
  pub id : ℕ
  pub menus : List (ℕ × Menu)

unfoldable pub find : ℕ → List (ℕ × Menu) → Option Menu
find key [] = none
find key ((k, m) ∷ rest) = if k == key then some m else find key rest

unfoldable pub put : ℕ → Menu → List (ℕ × Menu) → List (ℕ × Menu)
put key menu [] = (key, menu) ∷ []
put key menu ((k, m) ∷ rest) = if k == key then (key, menu) ∷ rest else (k, m) ∷ put key menu rest

-- `init`: the parent gets the next number, and its items' elements those after it. What is returned
-- is the number of the parent.
unfoldable pub init : (position : String) → List Settings → Store → Store × ℕ
unfolding make_items put
init position settings s =
    let key = s.id in
    let (items, after) = make_items (suc key) settings in
    let menu : Menu = record {
      items = items;
      position = position;
      open_now = false;
      fades = 0;
      watchers = 0;
    } in
    (record { id = after; menus = put key menu s.menus }, key)

-- `openMenu` but for the place of the menu, and `closeMenu`: a closed menu is one whose fading ended.
abbrev pub open_menu : Menu → Menu
open_menu m = record m { open_now = true; watchers = suc m.watchers }

abbrev pub close_menu : Menu → Menu
close_menu m = record m { fades = suc m.fades }

-- The actions on a menu, and what happens in the page: a click on an item, a press of the mouse
-- outside the menu, which every watcher hears, and the end of a fading.
pub data Event : Type 0 where
  open_action : Event
  close_action : Event
  item_click : ℕ → Event
  press_outside : Event
  fade_end : Event

pub closes : Option Call → Menu → Menu
closes none m = m
closes (some call) m = close_menu m

unfoldable pub step : Event → Menu → Menu
unfolding click closes
step open_action m = if m.open_now then m else open_menu m
step close_action m = if m.open_now then close_menu m else m
step (item_click k) m =
    let (items, call) = click k m.items in closes call (record m { items = items })
step press_outside m = record m { fades = m.fades + m.watchers }
step fade_end m = if m.fades == 0 then m else record m { fades = m.fades - 1; open_now = false }

unfoldable pub run : List Event → Menu → Menu
unfolding step
run [] m = m
run (e ∷ events) m = run events (step e m)

-- What an event does to a parent without a menu. The source makes an empty one: closing that does
-- nothing, and opening it is an error of type, here `none`.
pub without_menu : Event → Store → Option Store
without_menu open_action s = none
without_menu _ s = some s

-- An event for the menu of a parent.
unfoldable pub dispatch : ℕ → Event → Store → Option Store
unfolding without_menu
dispatch key e s = elim (find key s.menus) [
  | none ↦ without_menu e s
  | some m ↦ some (record s { menus = put key (step e m) s.menus })
]
