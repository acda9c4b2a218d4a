-- ===== src/Deletion/IndexPage/Course.antt =====
-- A deletion from the confirmation to the end, as events of the page.
use pact_broker.Prelude.{String, ◌≡◌, refl, [], ◌∷◌, ◌++◌}
use pact_broker.Deletion.Message.{Printer}
use pact_broker.Deletion.IndexPage.{
  Row, Page, Selector, handle_delete_resources_selected, confirmed, handle_deletion_success,
  slide_end, confirm, success, slid, answered, step,
}
use pact_broker.Deletion.IndexPage.Rows.{chosen, task}

module _ (select : Selector) (printer : Printer) where
  -- The confirmation, the answer, and the end of the sliding.
  abbrev pub finished : Page → Page
  finished p =
      step select printer slid (step select printer (success 0) (step select printer confirm p))

  -- Confirming what was asked last, where no other request waits, and having it succeed.
  pub finished-handle_delete_resources_selected :
      (row : Row) (url text : String) (p : Page)
      → p.pending ≡ []
      → let asked = handle_delete_resources_selected select row url text p in
        ((finished asked).rows
          ≡ (slide_end (
              handle_deletion_success
                (chosen select row p)
                (confirmed (task select row url text p) asked))).rows)
        × ((finished asked).requests ≡ p.requests ++ url ∷ [])
        × ((finished asked).pending ≡ [])
  unfolding handle_delete_resources_selected slide_end handle_deletion_success confirmed step
      answered
  finished-handle_delete_resources_selected row url text p idle = rw idle (refl, refl, refl)
