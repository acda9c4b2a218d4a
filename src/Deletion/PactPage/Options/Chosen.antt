-- ===== src/Deletion/PactPage/Options/Chosen.antt =====
-- From the menu of a pact to the request that deletes it.
use pact_broker.Prelude.{ℕ, String, ◌≡◌, refl, ap, ◌∙◌, none, some, List, [], ◌∷◌, ◌++◌, get_elem?}
use pact_broker.Menu.Items.{click, make_item, make_items, kind_of}
use pact_broker.Menu.Store.{Store}
use pact_broker.Menu.Store as MenuStore
use pact_broker.Menu.Owners.{Screen, settings_click, entry_click, page_event}
use pact_broker.Menu.Owners.Chosen.{opened_menu, run_append, run_page_event, ready_lem}
use pact_broker.Deletion.Message.{Printer}
use pact_broker.Deletion.PactPage.{
  PactData, Page, prompt_to_delete_resource, pressed, delete, press, delete_resource,
}
use pact_broker.Deletion.PactPage as PactPage
use pact_broker.Deletion.PactPage.Options.{
  BadgedPage, pact_event, badged_step, options_settings, ready, call_entry, run,
}

call_entry-prompt :
    (h : String → String) (key : ℕ) (d : PactData) (v : BadgedPage)
    → call_entry h (click 0 (opened_menu options_settings key).items).1 (some d) v
      ≡ record v { pact = prompt_to_delete_resource h d v.pact }
unfolding call_entry click make_items make_item kind_of MenuStore.step
call_entry-prompt h key d v = refl

-- Pressing the button of the confirmation that was just opened.
step-prompt :
    (h : String → String) (printer : Printer) (d : PactData) (page : Page)
    → PactPage.step h printer (pressed delete) (prompt_to_delete_resource h d page) ≡ record page {
      dialog = none;
      pending = page.pending ++ d.pact_url ∷ [];
      requests = page.requests ++ d.pact_url ∷ [];
    }
unfolding PactPage.step press delete_resource prompt_to_delete_resource
step-prompt h printer d page = refl

-- When the page is ready, a click on the element of a pact, a click on the entry of its menu and a press of
-- the button that confirms send one request, to the address of just that pact; the confirmation is
-- closed, and nothing else of the page is touched.
pub run_delete-ready :
    (h : String → String) (printer : Printer) (pacts : List PactData) (s : Store) (v : BadgedPage)
    (i : ℕ) {key : ℕ} {d : PactData}
    → get_elem? (ready pacts s v).1 i ≡ some key
    → get_elem? pacts i ≡ some d
    → (after : Screen PactData BadgedPage) × (run h printer
          (settings_click key ∷ entry_click key 0 ∷ page_event (pact_event (pressed delete)) ∷ [])
          (ready pacts s v).0
        ≡ some after)
      × (after.page ≡ record v {
        pact = record v.pact {
          dialog = none;
          pending = v.pact.pending ++ d.pact_url ∷ [];
          requests = v.pact.requests ++ d.pact_url ∷ [];
        };
      })
unfolding ready run badged_step
run_delete-ready h printer pacts s v i {key} {d} k o =
    let (asked, runs, called, clicked) =
      ready_lem (call_entry h) (badged_step h printer) options_settings pacts s v i 0 k o in
    let confirm = pact_event (pressed delete) in
    (
      record asked { page = badged_step h printer confirm asked.page },
      run_append (call_entry h) (badged_step h printer)
            (settings_click key ∷ entry_click key 0 ∷ []) (page_event confirm ∷ []) _ runs
          ∙ run_page_event (call_entry h) (badged_step h printer) confirm asked,
      ap (badged_step h printer confirm) (called ∙ call_entry-prompt h key d v)
          ∙ ap (λ (p : Page). record v { pact = p }) (step-prompt h printer d v.pact),
    )
