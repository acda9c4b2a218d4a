-- ===== src/Deletion/PactPage/Requests.antt =====
-- When the page of a pact sends a request.
use pact_broker.Prelude.{
  ℕ, String, Option, none, some, List, [], ◌∷◌, ◌≡◌, ◌≢◌, refl, ap, ◌∙◌, All, get_elem?,
  Option-cases, inl, inr,
}
use pact_broker.Js.{Value}
use pact_broker.Deletion.Message.{Printer, create_error_message}
use pact_broker.Deletion.IndexPage.{remove_at}
use pact_broker.Deletion.PactPage.{
  Dialog, delete_pact, where_next, all_deleted, Page, prompt_to_delete_resource, next_dialog,
  handle_deletion_success, handle_deletion_failure, Button, delete, cancel, latest, home, press,
  Event, choose, pressed, success, failure, answered, press_open, step, run,
}

requests-press :
    (b : Button) (d : Dialog) (page : Page) → b ≢ delete → (press b d page).requests ≡ page.requests
unfolding press
requests-press delete d page ne = absurd (ne refl)
requests-press cancel (delete_pact text url) page ne = refl
requests-press cancel (where_next latest_url index) page ne = refl
requests-press cancel (all_deleted index) page ne = refl
requests-press latest (delete_pact text url) page ne = refl
requests-press latest (where_next latest_url index) page ne = refl
requests-press latest (all_deleted index) page ne = refl
requests-press home (delete_pact text url) page ne = refl
requests-press home (where_next latest_url index) page ne = refl
requests-press home (all_deleted index) page ne = refl

requests-press_open :
    (b : Button) (o : Option Dialog) (page : Page)
    → b ≢ delete
    → (press_open b o page).requests ≡ page.requests
unfolding press_open
requests-press_open b none page ne = refl
requests-press_open b (some d) page ne = requests-press b d page ne

requests-answered :
    (f : Page → Page) (k : ℕ) (page : Page)
    → ((q : Page) → (f q).requests ≡ q.requests)
    → (answered f k page).requests ≡ page.requests
unfolding answered
requests-answered f k page h = elim (Option-cases (get_elem? page.pending k)) [
  | inl none_waits ↦ rw (none_waits, answered)
  | inr (url, waits) ↦ rw (waits, answered) (h (record page { pending = remove_at k page.pending }))
]

module _ (h : String → String) (p : Printer) where
  requests-success :
      (body : Value) (page : Page) → (handle_deletion_success p body page).requests ≡ page.requests
  unfolding handle_deletion_success
  requests-success body page = elim (Option-cases (next_dialog p body)) [
    | inl fails ↦ rw (fails, handle_deletion_success)
    | inr (d, e) ↦ rw (e, handle_deletion_success)
  ]

  requests-failure :
      (response : Value) (page : Page)
      → (handle_deletion_failure p response page).requests ≡ page.requests
  unfolding handle_deletion_failure
  requests-failure response page = elim (Option-cases (create_error_message p response)) [
    | inl fails ↦ rw (fails, handle_deletion_failure)
    | inr (message, e) ↦ rw (e, handle_deletion_failure)
  ]

  requests-step :
      (e : Event) (page : Page) → e ≢ pressed delete → (step h p e page).requests ≡ page.requests
  unfolding step prompt_to_delete_resource
  requests-step (choose d) page ne = refl
  requests-step (pressed b) page ne =
      requests-press_open b page.dialog page (λ same. ne (ap pressed same))
  requests-step (success k body) page ne =
      requests-answered (handle_deletion_success p body) k page (requests-success body)
  requests-step (failure k response) page ne =
      requests-answered (handle_deletion_failure p response) k page (requests-failure response)

  -- Whatever happens on the page of a pact, no request is sent as long as the button that confirms a
  -- deletion is not pressed.
  pub requests-run :
      (events : List Event) (page : Page)
      → All (λ e. e ≢ pressed delete) events
      → (run h p events page).requests ≡ page.requests
  unfolding run
  requests-run [] page ne = refl
  requests-run (e ∷ events) page ne =
      requests-run events (step h p e page) ne.1 ∙ requests-step e page ne.0
