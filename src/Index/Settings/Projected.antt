-- ===== src/Index/Settings/Projected.antt =====
-- The index page as its table alone: what the menus add is which deletion is asked for.
use pact_broker.Prelude.{
  ℕ, zero, suc, ◌≡◌, refl, ap, ◌∙◌, Option, none, some, List, [], ◌∷◌, ◌++◌, All,
}
use pact_broker.Menu.Items.{Call, click, make_item, make_items, kind_of}
use pact_broker.Menu.Store.{Store}
use pact_broker.Menu.Parents.Own.{new_menu}
use pact_broker.Menu.Owners.Projected.{Entries, run_page, projected, IsOn}
use pact_broker.Menu.Owners.Projected as Projected
use pact_broker.Deletion.Message.{Printer}
use pact_broker.Deletion.IndexPage.{Row, Page, Selector, delete_pacts, delete_integration}
use pact_broker.Deletion.IndexPage as Table
use pact_broker.Deletion.IndexPage.Sent.{question_of, all_sent, run-all_sent}
use pact_broker.Index.Settings.{menu_settings, Index, ready, call_entry, Event, run}

-- What a click on an entry is for the table: the first two entries have functions.
abbrev pub asked_by : ℕ → Option Row → List Table.Event
asked_by k none = []
asked_by zero (some row) = delete_pacts row ∷ []
asked_by (suc zero) (some row) = delete_integration row ∷ []
asked_by (suc (suc k)) (some row) = []

-- The call of an entry: none past the second.
abbrev entry_call : ℕ → Option Call
entry_call zero = some (record { item = 0; told = none })
entry_call (suc zero) = some (record { item = 1; told = none })
entry_call (suc (suc k)) = none

-- No click changes the two entries.
click-entries :
    (key k : ℕ)
    → click k (new_menu "overlay" menu_settings key).items
      ≡ ((new_menu "overlay" menu_settings key).items, entry_call k)
unfolding click make_items make_item kind_of
click-entries key zero = refl
click-entries key (suc zero) = refl
click-entries key (suc (suc k)) = refl

module _ (select : Selector) (printer : Printer) where
  call_entry_asks :
      (k : ℕ) (row : Row) (p : Page)
      → run_page (Table.step select printer) (asked_by k (some row)) p
        ≡ call_entry select (entry_call k) (some row) p
  unfolding call_entry run_page Table.step
  call_entry_asks zero row p = refl
  call_entry_asks (suc zero) row p = refl
  call_entry_asks (suc (suc k)) row p = refl

  call_entry_rests : (call : Option Call) (p : Page) → p ≡ call_entry select call none p
  unfolding call_entry
  call_entry_rests none p = refl
  call_entry_rests (some call) p = refl

  entries : Entries Row Page Table.Event
  unfolding run_page
  entries = record {
    settings = menu_settings;
    call_entry = call_entry select;
    page_step = Table.step select printer;
    entry_call = entry_call;
    asked = asked_by;
    calls = click-entries;
    asks = call_entry_asks;
    rests = λ k call p. call_entry_rests call p;
  }

  run-run_page :
      (events : List Table.Event) (p : Page)
      → run_page (Table.step select printer) events p ≡ Table.run select printer events p
  unfolding run_page Table.run
  run-run_page [] p = refl
  run-run_page (e ∷ events) p = run-run_page events (Table.step select printer e p)

  -- When the page is ready, whatever happens on it, as long as the elements that are clicked and the menus
  -- that something happens to are those of the rows: there is no error, and the table is as the same course
  -- leaves it in which a click on an entry of the menu of a row is a question for the deletion of that
  -- row's pacts or of its integration. What is sent are the addresses of the questions that were confirmed,
  -- in order.
  pub run-ready-projected :
      (events : List Event) (s : Store) (p : Page)
      → let x = (ready s p).0 in
        let told = projected asked_by x.owners events in
        All (IsOn x.owners) events
        → (after : Index) × (run select printer events x ≡ some after)
          × (after.page ≡ Table.run select printer told p)
          × (after.page.requests ≡ p.requests ++ all_sent told (question_of p.dialog))
  unfolding ready run entries
  run-ready-projected events s p on =
      let told = projected asked_by (ready s p).0.owners events in
      let (after, runs, page) = Projected.run-ready-projected entries events p.rows s p on in
      let same = page ∙ run-run_page told p in
      (
        after,
        runs,
        same,
        ap (λ (q : Page). q.requests) same ∙ (run-all_sent select printer told p).1,
      )
