-- ===== src/Examples/Settings.antt =====
-- The menus of the index page of public/javascripts/index.js at a concrete table.
use pact_broker.Prelude.{
  ℕ, ◌≡◌, refl, List, All, String, true, false, ◌&&◌, none, some, [], ◌∷◌, str_eq, get_elem?,
}
use pact_broker.Js.{undefined}
use pact_broker.Menu.Store.{Store, init, fade_end}
use pact_broker.Menu.Items.{make_item, make_items}
use pact_broker.Menu.Parents.{init_all}
use pact_broker.Deletion.Message.{Printer}
use pact_broker.Deletion.IndexPage.{Row, Page, Selector}
use pact_broker.Menu.Owners.{settings_click, entry_click, menu_event, page_event}
use pact_broker.Menu.Owners as Owners
use pact_broker.Index.Settings.{Index, Event, ready, run}
use pact_broker.Deletion.IndexPage.{
  confirm, cancel, delete_pacts, delete_integration, success, slid,
}
use pact_broker.Deletion.IndexPage as Table
use pact_broker.Deletion.IndexPage.Sent.{all_sent}
use pact_broker.Index.Settings.Projected.{asked_by, run-ready-projected}
use pact_broker.Menu.Owners.Projected.{projected, IsOn}
use pact_broker.Deletion.IndexPage.Rows.{IsAtRest, DistinctIds}
use pact_broker.Index.Settings.Deleted.{run_deletion-ready}

abbrev printer : Printer
printer = record { inherited = λ v key. undefined; print = λ v. "value"; stringify = λ v. "{}" }

abbrev by_names : Selector
by_names consumer provider r = str_eq r.consumer_name consumer && str_eq r.provider_name provider

abbrev row : ℕ → String → Row
row id consumer_name = record {
  id = id;
  consumer_name = consumer_name;
  provider_name = "Bar";
  pact_versions_url = "/pacts";
  integration_url = "/integrations";
  highlighted = false;
  sliding = false;
}

abbrev table : Page
table = record {
  rows = row 1 "Foo" ∷ row 2 "Baz" ∷ [];
  dialog = none;
  pending = [];
  requests = [];
  alerts = [];
}

abbrev no_menus : Store
no_menus = record { id = 0; menus = [] }

-- The first menu and its two entries have the numbers before 3.
second_key : get_elem? (ready no_menus table).1 1 ≡ some 3
unfolding ready Owners.ready init_all init make_items make_item
second_key = refl

at_rest : IsAtRest table.rows
at_rest = ((refl, refl), ((refl, refl), tt))

distinct : DistinctIds table.rows
distinct = (refl, (refl, tt))

-- The second menu is opened, its second entry is chosen, and the deletion is confirmed.
abbrev course : List Event
course =
    settings_click 3
    ∷ menu_event 3 fade_end
    ∷ entry_click 3 1
    ∷ page_event cancel
    ∷ entry_click 3 0
    ∷ page_event confirm
    ∷ []

abbrev told : List Table.Event
told = delete_integration (row 2 "Baz") ∷ cancel ∷ delete_pacts (row 2 "Baz") ∷ confirm ∷ []

course_told : projected asked_by (ready no_menus table).0.owners course ≡ told
unfolding ready Owners.ready init_all init make_items make_item
course_told = refl

course-IsOn : All (IsOn (ready no_menus table).0.owners) course
unfolding ready Owners.ready init_all init make_items make_item
course-IsOn = ((_, refl), ((_, refl), (tt, (tt, (tt, (tt, tt))))))

run-ready-projected_example :
    let x = (ready no_menus table).0 in
    let asked = projected asked_by x.owners course in
    (after : Index) × (run by_names printer course x ≡ some after)
    × (after.page ≡ Table.run by_names printer asked table)
    × (after.page.requests ≡ all_sent asked none)
run-ready-projected_example = run-ready-projected by_names printer course no_menus table course-IsOn

run_deletion-ready_example :
    (after : Index) × (run by_names printer
        (settings_click 3
          ∷ entry_click 3 1
          ∷ page_event confirm
          ∷ page_event (success 0)
          ∷ page_event slid
          ∷ [])
        (ready no_menus table).0
      ≡ some after)
    × (after.page.rows ≡ row 1 "Foo" ∷ [])
    × (after.page.requests ≡ "/integrations" ∷ [])
    × (after.page.pending ≡ [])
run_deletion-ready_example =
    run_deletion-ready by_names printer no_menus table 1 true at_rest distinct refl second_key refl
