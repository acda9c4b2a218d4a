-- ===== src/Index/Settings/Deleted.antt =====
-- From the settings element of a row to its removal from the table.
use pact_broker.Prelude.{
  ℕ, String, ◌≡◌, refl, ap, ◌∙◌, Bool, true, false, not, some, [], ◌∷◌, ◌++◌, keep, get_elem?,
}
use pact_broker.Menu.Store.{Store}
use pact_broker.Menu.Owners.{settings_click, entry_click, page_event}
use pact_broker.Menu.Owners.Chosen.{run_append}
use pact_broker.Deletion.Message.{Printer}
use pact_broker.Deletion.IndexPage.{
  Row, Page, Selector, create_pact_deletion_confirmation_text,
  create_integration_deletion_confirmation_text, handle_delete_pacts_selected,
  handle_delete_integrations_selected, confirm, success, slid,
}
use pact_broker.Deletion.IndexPage.Course.{finished, finished-handle_delete_resources_selected}
use pact_broker.Menu.Owners as Owners
use pact_broker.Deletion.IndexPage as Table
use pact_broker.Deletion.IndexPage.Rows.{IsAtRest, DistinctIds, deletion_lem}
use pact_broker.Index.Settings.{Index, ready, call_entry, run}
use pact_broker.Index.Settings.Chosen.{handler, entry_number, run-ready}

abbrev pub url_of : (second : Bool) → Row → String
url_of true row = row.integration_url
url_of false row = row.pact_versions_url

module _ (select : Selector) (printer : Printer) where
  finished-handler :
      (second : Bool) (row : Row) (p : Page)
      → IsAtRest p.rows
      → DistinctIds p.rows
      → p.pending ≡ []
      → let after = finished select printer (handler second select row p) in
        (after.rows ≡ keep (λ r. not (select row.consumer_name row.provider_name r)) p.rows)
        × (after.requests ≡ p.requests ++ url_of second row ∷ [])
        × (after.pending ≡ [])
  unfolding handle_delete_pacts_selected handle_delete_integrations_selected
  finished-handler true row p rest distinct idle =
      let text = create_integration_deletion_confirmation_text row in
      let (rows, sent, done) =
        finished-handle_delete_resources_selected select printer row row.integration_url text p
          idle in
      (rows ∙ deletion_lem select row row.integration_url text p rest distinct, sent, done)
  finished-handler false row p rest distinct idle =
      let text = create_pact_deletion_confirmation_text row in
      let (rows, sent, done) =
        finished-handle_delete_resources_selected select printer row row.pact_versions_url text p
          idle in
      (rows ∙ deletion_lem select row row.pact_versions_url text p rest distinct, sent, done)

  run-finished :
      (x : Index)
      → run select printer (page_event confirm ∷ page_event (success 0) ∷ page_event slid ∷ []) x
        ≡ some (record x { page = finished select printer x.page })
  unfolding run Owners.run Owners.step
  run-finished x = refl

  -- When the page is ready, with a table at rest, no number of a row twice and no request waiting: opening
  -- the menu of a row, choosing one of its entries, confirming, and having the request succeed send one
  -- request, to the address of the row that belongs to the entry, and take out of the table exactly the
  -- rows that the selector finds for the names of that row, in the end.
  pub run_deletion-ready :
      (s : Store) (p : Page) (i : ℕ) (second : Bool) {key : ℕ} {row : Row}
      → IsAtRest p.rows
      → DistinctIds p.rows
      → p.pending ≡ []
      → get_elem? (ready s p).1 i ≡ some key
      → get_elem? p.rows i ≡ some row
      → (after : Index) × (run select printer
            (settings_click key
              ∷ entry_click key (entry_number second)
              ∷ page_event confirm
              ∷ page_event (success 0)
              ∷ page_event slid
              ∷ [])
            (ready s p).0
          ≡ some after)
        × (after.page.rows ≡ keep (λ r. not (select row.consumer_name row.provider_name r)) p.rows)
        × (after.page.requests ≡ p.requests ++ url_of second row ∷ [])
        × (after.page.pending ≡ [])
  unfolding run
  run_deletion-ready s p i second {key} {row} rest distinct idle h k =
      let (asked, runs, called, clicked) = run-ready select printer s p i second h k in
      let (rows, sent, done) = finished-handler second row p rest distinct idle in
      let same = ap (finished select printer) called in
      (
        record asked { page = finished select printer asked.page },
        run_append (call_entry select) (Table.step select printer)
              (settings_click key ∷ entry_click key (entry_number second) ∷ [])
              (page_event confirm ∷ page_event (success 0) ∷ page_event slid ∷ []) _ runs
            ∙ run-finished asked,
        ap (λ (q : Page). q.rows) same ∙ rows,
        ap (λ (q : Page). q.requests) same ∙ sent,
        ap (λ (q : Page). q.pending) same ∙ done,
      )
