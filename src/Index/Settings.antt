-- ===== src/Index/Settings.antt =====
-- The menus of public/javascripts/index.js: each row of the table has an element "integration-settings",
-- which opens a menu of public/javascripts/material-menu.js, and the menu's entries start a deletion.
pub mod Chosen
pub mod Deleted
pub mod Projected
use pact_broker.Prelude.{ℕ, String, false, Option, none, some, List, [], ◌∷◌, ◌==◌, if◌then◌else◌}
use pact_broker.Menu.Items.{Settings, Call}
use pact_broker.Menu.Store.{Store}
use pact_broker.Menu.Owners.{Screen}
use pact_broker.Menu.Owners as Owners
use pact_broker.Deletion.Message.{Printer}
use pact_broker.Deletion.IndexPage.{
  Row, Page, Selector, handle_delete_pacts_selected, handle_delete_integrations_selected,
}
use pact_broker.Deletion.IndexPage as Table

abbrev entry : String → Settings
entry text = record { text = some text; type = some "normal"; radio_group = none; checked = false }

abbrev pub menu_settings : List Settings
menu_settings = entry "Delete pacts ..." ∷ entry "Delete integration..." ∷ []

-- The menus, the table, and the row that each settings element stands in, by the element's number.
abbrev pub Index : Type 0
Index = Screen Row Page

-- `$(document).ready`: every row's settings element gets its menu. What is returned with the page are the
-- numbers of these elements, in the order of the rows.
unfoldable pub ready : Store → Page → Index × List ℕ
unfolding Owners.ready
ready s p = Owners.ready menu_settings p.rows s p

-- What the entries of the menu call, by the number of the entry, with the row that the element stands in.
unfoldable pub call_entry : Selector → Option Call → Option Row → Page → Page
call_entry select none row p = p
call_entry select (some call) none p = p
call_entry select (some call) (some row) p =
    if call.item == 0
    then handle_delete_pacts_selected select row p
    else handle_delete_integrations_selected select row p

-- What happens on the index page: to the menus, and to the table. `none` is an error of type.
abbrev pub Event : Type 0
Event = Owners.Event Table.Event

unfoldable pub run : Selector → Printer → List Event → Index → Option Index
unfolding call_entry Owners.run
run select printer = Owners.run (call_entry select) (Table.step select printer)
