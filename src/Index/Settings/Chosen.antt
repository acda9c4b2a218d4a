-- ===== src/Index/Settings/Chosen.antt =====
-- From the settings element of a row to the confirmation of its deletion.
use pact_broker.Prelude.{
  ℕ, ◌≡◌, refl, ◌∙◌, Bool, true, false, some, [], ◌∷◌, get_elem?, if◌then◌else◌,
}
use pact_broker.Menu.Items.{click, make_item, make_items, kind_of}
use pact_broker.Menu.Store.{Store, find}
use pact_broker.Menu.Store as MenuStore
use pact_broker.Menu.Owners.{settings_click, entry_click}
use pact_broker.Menu.Owners.Chosen.{opened_menu, clicked_menu, ready_lem}
use pact_broker.Deletion.Message.{Printer}
use pact_broker.Deletion.IndexPage.{
  Row, Page, Selector, handle_delete_pacts_selected, handle_delete_integrations_selected,
}
use pact_broker.Deletion.IndexPage as Table
use pact_broker.Index.Settings.{menu_settings, Index, ready, call_entry, run}

-- The function of the first entry, or that of the second.
abbrev pub handler : Bool → Selector → Row → Page → Page
handler true = handle_delete_integrations_selected
handler false = handle_delete_pacts_selected

abbrev pub entry_number : Bool → ℕ
entry_number second = if second then 1 else 0

call_entry-handler :
    (select : Selector) (key : ℕ) (second : Bool) (row : Row) (p : Page)
    → call_entry select
        (click (entry_number second) (opened_menu menu_settings key).items).1
        (some row)
        p
      ≡ handler second select row p
unfolding call_entry click make_items make_item kind_of MenuStore.step
call_entry-handler select key true row p = refl
call_entry-handler select key false row p = refl

-- When the page is ready, a click on the settings element of a row and then on the first or the second
-- entry of its menu asks for the deletion of the pacts, or of the integration, of just that row; no
-- other part of the table's page is touched, and the menu of the row goes on as the two clicks alone
-- say.
pub run-ready :
    (select : Selector) (printer : Printer) (s : Store) (p : Page) (i : ℕ) (second : Bool) {key : ℕ}
    {row : Row}
    → get_elem? (ready s p).1 i ≡ some key
    → get_elem? p.rows i ≡ some row
    → (after : Index) × (run select printer
          (settings_click key ∷ entry_click key (entry_number second) ∷ [])
          (ready s p).0
        ≡ some after)
      × (after.page ≡ handler second select row p)
      × (find key after.store.menus ≡ some (clicked_menu menu_settings key (entry_number second)))
unfolding ready run
run-ready select printer s p i second {key} {row} h k =
    let (after, runs, called, clicked) =
      ready_lem (call_entry select) (Table.step select printer) menu_settings p.rows s p i
        (entry_number second) h k in
    (after, runs, called ∙ call_entry-handler select key second row p, clicked)
