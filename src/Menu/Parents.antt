-- ===== src/Menu/Parents.antt =====
-- `materialMenu` on a set of parents: `$(…).each` of public/javascripts/material-menu.js.
pub mod Own
pub mod Opened
use pact_broker.Prelude.{
  ℕ, zero, suc, String, Option, List, [], ◌∷◌, map, none, some, length, str_eq, if◌then◌else◌,
}
use pact_broker.Menu.Items.{Settings}
use pact_broker.Menu.Store.{Store, Event, open_action, close_action, init}
use pact_broker.Menu.Store.Apart.{dispatch_all}

-- "init" on so many parents, and their numbers.
unfoldable pub init_all : (position : String) → List Settings → (count : ℕ) → Store → Store × List ℕ
unfolding init
init_all position settings zero s = (s, [])
init_all position settings (suc n) s =
    let (next, key) = init position settings s in
    let (after, keys) = init_all position settings n next in (after, key ∷ keys)

-- "open" and "close" on the parents with the given numbers; no round of the loop returns `false`, so
-- that only an error ends it.
unfoldable pub open_all : List ℕ → Store → Option Store
unfolding dispatch_all
open_all keys = dispatch_all (map (λ key. (key, open_action)) keys)

unfoldable pub close_all : List ℕ → Store → Option Store
unfolding dispatch_all
close_all keys = dispatch_all (map (λ key. (key, close_action)) keys)

-- The settings of a call; what is left out has the defaults of the source.
pub record Options : Type 0 where
  pub animation_speed : Option ℕ
  pub position : Option String
  pub items : Option (List Settings)

abbrev pub or_else : {A : Type 0} → Option A → A → A
or_else none d = d
or_else (some a) d = a

abbrev pub duration_of : Options → ℕ
duration_of o = or_else o.animation_speed 250

abbrev pub position_of : Options → String
position_of o = or_else o.position ""

abbrev pub items_of : Options → List Settings
items_of o = or_else o.items []

with_keys : List ℕ → Option Store → Option (Store × List ℕ)
with_keys keys none = none
with_keys keys (some s) = some (s, keys)

-- `$(parents).materialMenu(action, settings)` on the parents with the given numbers. What is returned are
-- their numbers afterwards, since "init" gives new ones; another action does nothing, and `none` is
-- an error of type.
unfoldable pub material_menu :
    (action : String) → Options → (keys : List ℕ) → Store → Option (Store × List ℕ)
unfolding init_all open_all close_all with_keys
material_menu action options keys s =
    if str_eq action "init"
    then some (init_all (position_of options) (items_of options) (length keys) s)
    else if str_eq action "open"
    then with_keys keys (open_all keys s)
    else if str_eq action "close"
    then with_keys keys (close_all keys s)
    else some (s, keys)
