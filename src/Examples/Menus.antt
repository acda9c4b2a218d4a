-- ===== src/Examples/Menus.antt =====
-- Menus of public/javascripts/material-menu.js at concrete inputs.
use pact_broker.Prelude.{
  ◌+◌, ◌≡◌, ◌≢◌, ◌⊎◌, refl, true, false, none, some, List, [], ◌∷◌, All, ◌++◌,
}
use pact_broker.Prelude.Int.{pos, ◌-ℤ◌, ◌≤ℤ◌}
use pact_broker.Menu.Items.{Settings, Item, radio, toggle}
use pact_broker.Menu.Store.{
  Menu, Store, Event, open_action, close_action, press_outside, fade_end, run,
}
use pact_broker.Menu.Store.Closing.{run_close-shut}
use pact_broker.Menu.Store.Events.{openings, watchers-run}
use pact_broker.Menu.Place.{Layout, update_pos}
use pact_broker.Menu.Place.Screen.{bottom}
use pact_broker.Menu.Place.Screen.{right, update_pos_lem}

abbrev first_radio : Item
first_radio = record {
  text = "";
  kind = radio;
  radio_group = "default";
  checked = true;
  element = 1;
  unchecked = false;
}

abbrev second_radio : Item
second_radio = record first_radio { checked = false; element = 2; unchecked = true }

abbrev switch : Item
switch = record first_radio { kind = toggle; element = 3 }

abbrev three_items : List Item
three_items = first_radio ∷ second_radio ∷ switch ∷ []

abbrev closed_menu : Menu
closed_menu = record {
  items = three_items;
  position = "overlay";
  open_now = false;
  fades = 0;
  watchers = 0;
}

abbrev one_menu : Store
one_menu = record { id = 4; menus = (0, closed_menu) ∷ [] }

abbrev delete_entry : Settings
delete_entry = record { text = some "Delete"; type = none; radio_group = none; checked = false }

watchers-run_example :
    (run (open_action ∷ press_outside ∷ fade_end ∷ open_action ∷ []) closed_menu).watchers
    ≡ 0 + openings (open_action ∷ press_outside ∷ fade_end ∷ open_action ∷ []) closed_menu
watchers-run_example =
    watchers-run (open_action ∷ press_outside ∷ fade_end ∷ open_action ∷ []) closed_menu

abbrev near_the_edge : Layout
near_the_edge = record {
  parent_top = 2000;
  parent_left = 100;
  parent_height = 80;
  parent_width = 200;
  window_height = 600;
  window_width = 800;
  natural_height = 900;
  menu_width = 480;
  frame = 64;
  overlay = true;
}

abbrev quiet : List Event
quiet = press_outside ∷ []

never_opened : All (λ e. e ≢ open_action) quiet
never_opened = (λ e. cc, tt)

run_close-shut_example :
    (run
      (close_action ∷ (quiet ++ fade_end ∷ quiet))
      (record closed_menu { open_now = true })).open_now
    ≡ false
run_close-shut_example =
    run_close-shut (record closed_menu { open_now = true }) quiet quiet refl never_opened
      never_opened

update_pos_lem_example :
    ((bottom (update_pos near_the_edge) ≤ℤ pos 2400 -ℤ pos 20)
      ⊎ (bottom (update_pos near_the_edge) ≤ℤ pos 2080))
    × ((right near_the_edge ≤ℤ pos 3200 -ℤ pos 20) ⊎ (right near_the_edge ≤ℤ pos 300))
update_pos_lem_example = update_pos_lem near_the_edge
