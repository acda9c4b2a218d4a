-- ===== src/Deletion/PactPage/Course.antt =====
-- Where a deletion leads.
use pact_broker.Prelude.{String, true, false, none, some, [], ◌∷◌, ◌++◌, ◌≡◌, refl, ap}
use pact_broker.Js.{Value, holds, property}
use pact_broker.Deletion.Message.{Printer, create_error_message}
use pact_broker.Deletion.Message.Total.{create_error_message_total}
use pact_broker.Deletion.PactPage.{
  PactData, Dialog, delete_pact, where_next, all_deleted, Page, prompt_to_delete_resource,
  next_dialog, handle_deletion_success, handle_deletion_failure, delete, cancel, latest, home,
  press, create_deletion_confirmation_text,
}

-- Choosing to delete a pact and cancelling leaves the page with no confirmation and sends nothing;
-- confirming sends one request, to the pact's address, and waits for its answer.
pub prompt-press :
    (h : String → String) (d : PactData) (page : Page)
    → let asked = prompt_to_delete_resource h d page in
      let dialog = delete_pact (create_deletion_confirmation_text h d) d.pact_url in
      (asked.dialog ≡ some dialog)
      × (press cancel dialog asked ≡ record page { dialog = none })
      × (press delete dialog asked ≡ record page {
        dialog = none;
        pending = page.pending ++ d.pact_url ∷ [];
        requests = page.requests ++ d.pact_url ∷ [];
      })
unfolding prompt_to_delete_resource press
prompt-press h d page = (refl, refl, refl)

dialog_shown :
    (p : Printer) (body : Value) (page : Page) {dialog : Dialog}
    → next_dialog p body ≡ some dialog
    → handle_deletion_success p body page ≡ record page { dialog = some dialog }
unfolding handle_deletion_success
dialog_shown p body page e = rw (e, handle_deletion_success)

module _ (p : Printer) (body : Value) (page : Page) {links index index_url : Value}
    (has_links : property p.inherited body "_links" ≡ some links)
    (has_index : property p.inherited links "index" ≡ some index)
    (has_index_url : property p.inherited index "href" ≡ some index_url) where
  next_dialog-latest :
      {link url : Value}
      → property p.inherited links "pb:latest-pact-version" ≡ some link
      → holds link ≡ true
      → property p.inherited link "href" ≡ some url
      → next_dialog p body ≡ some (where_next url index_url)
  unfolding next_dialog
  next_dialog-latest e h u = rw (has_links, e, h, u, has_index, has_index_url)

  next_dialog-all :
      {link : Value}
      → property p.inherited links "pb:latest-pact-version" ≡ some link
      → holds link ≡ false
      → next_dialog p body ≡ some (all_deleted index_url)
  unfolding next_dialog
  next_dialog-all e h = rw (has_links, e, h, has_index, has_index_url)

  -- Where the answer to a deletion has a link to the index and one to a latest pact, with their
  -- addresses, the page asks where to go, and each button leads to the address of its name.
  pub handle_deletion_success-latest :
      {link url : Value}
      → property p.inherited links "pb:latest-pact-version" ≡ some link
      → holds link ≡ true
      → property p.inherited link "href" ≡ some url
      → let dialog = where_next url index_url in
        let asked = handle_deletion_success p body page in
        (asked.dialog ≡ some dialog)
        × ((press latest dialog asked).location ≡ some url)
        × ((press home dialog asked).location ≡ some index_url)
  unfolding press
  handle_deletion_success-latest e h u = (
    ap (λ (q : Page). q.dialog) (dialog_shown p body page (next_dialog-latest e h u)),
    refl,
    refl,
  )

  -- Where the answer to a deletion has a link to the index, with its address, and none to a latest
  -- pact, the page says that all is deleted, and its one button leads to the index.
  pub handle_deletion_success-all :
      {link : Value}
      → property p.inherited links "pb:latest-pact-version" ≡ some link
      → holds link ≡ false
      → let asked = handle_deletion_success p body page in
        (asked.dialog ≡ some (all_deleted index_url))
        × ((press home (all_deleted index_url) asked).location ≡ some index_url)
  unfolding press
  handle_deletion_success-all e h =
      (ap (λ (q : Page). q.dialog) (dialog_shown p body page (next_dialog-all e h)), refl)

-- Whatever the answer to a request that failed, the page shows one more message and throws no error.
pub handle_deletion_failure_lem :
    (p : Printer) (response : Value) (page : Page)
    → (message : String) × (create_error_message p response ≡ some message)
      × (handle_deletion_failure p response page
          ≡ record page { alerts = page.alerts ++ message ∷ [] })
unfolding handle_deletion_failure
handle_deletion_failure_lem p response page =
    let (message, e) = create_error_message_total p response in
    (message, e, rw (e, handle_deletion_failure))
