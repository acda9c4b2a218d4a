-- ===== src/Deletion/PactPage.antt =====
-- public/javascripts/pact.js: deleting a pact from its page, and where to go after that. The calls of
-- jQuery are the effects that are returned; escaping a text for HTML is jQuery's, and a parameter.
pub mod Course
pub mod Requests
pub mod Chosen
pub mod Options
use pact_broker.Deletion.IndexPage.{remove_at}
use pact_broker.Prelude.{
  ℕ, get_elem?, String, Bool, true, false, not, Option, none, some, List, [], ◌∷◌, ◌++◌, join,
  if◌then◌else◌,
}
use pact_broker.Js.{Value, holds, property}
use pact_broker.Deletion.Message.{Printer, ◌>>=◌, create_error_message}

-- The data of the menu's element.
pub record PactData : Type 0 where
  pub consumer_version_number : String
  pub consumer_name : String
  pub pact_url : String

-- The confirmations: for the deletion, with what is to be deleted, and the two that follow it, with
-- the addresses of their buttons.
pub data Dialog : Type 0 where
  delete_pact : (text url : String) → Dialog
  where_next : (latest index : Value) → Dialog
  all_deleted : (index : Value) → Dialog

-- The page: the open confirmation (one that opens above another is left out), the requests that wait,
-- the requests sent, the alerts, and the address that the page was sent to. `thrown` says that a
-- handler ended in an error of type.
pub record Page : Type 0 where
  pub dialog : Option Dialog
  pub pending : List String
  pub requests : List String
  pub alerts : List String
  pub location : Option Value
  pub thrown : Bool

module _ (h : String → String) where
  unfoldable pub create_deletion_confirmation_text : PactData → String
  create_deletion_confirmation_text d = join (
      "Do you wish to delete the pact for version "
      ∷ h d.consumer_version_number
      ∷ " of "
      ∷ h d.consumer_name
      ∷ "?"
      ∷ [])

  -- The menu's entry: `promptToDeleteResource`, with `confirmDeleteResource`.
  unfoldable pub prompt_to_delete_resource : PactData → Page → Page
  unfolding create_deletion_confirmation_text
  prompt_to_delete_resource d page = record page {
    dialog = some (delete_pact (create_deletion_confirmation_text d) d.pact_url);
  }

module _ (p : Printer) where
  abbrev pub href : Value → Option Value
  href link = property p.inherited link "href"

  -- `responseBody._links["index"].href`.
  abbrev pub index_of : Value → Option Value
  index_of links = property p.inherited links "index" >>= href

  -- The confirmation after a deletion; `none` is an error of type.
  unfoldable pub next_dialog : (response_body : Value) → Option Dialog
  next_dialog body = property p.inherited body "_links" >>= λ links.
      property p.inherited links "pb:latest-pact-version" >>= λ latest.
      if holds latest
      then (href latest >>= λ latest_url.
          index_of links >>= λ index. some (where_next latest_url index))
      else (index_of links >>= λ index. some (all_deleted index))

  unfoldable pub handle_deletion_success : Value → Page → Page
  handle_deletion_success body page = elim (next_dialog body) [
    | none ↦ record page { thrown = true }
    | some d ↦ record page { dialog = some d }
  ]

  unfoldable pub handle_deletion_failure : Value → Page → Page
  handle_deletion_failure response page = elim (create_error_message p response) [
    | none ↦ record page { thrown = true }
    | some message ↦ record page { alerts = page.alerts ++ message ∷ [] }
  ]

-- The buttons of the confirmations.
pub data Button : Type 0 where
  delete cancel latest home : Button

-- `deleteResource` sends the request.
unfoldable pub delete_resource : String → Page → Page
delete_resource url page = record page {
  pending = page.pending ++ url ∷ [];
  requests = page.requests ++ url ∷ [];
}

unfoldable pub press : Button → Dialog → Page → Page
unfolding delete_resource
press delete (delete_pact text url) page = delete_resource url (record page { dialog = none })
press cancel (delete_pact text url) page = record page { dialog = none }
press latest (where_next latest_url index) page = record page {
  dialog = none;
  location = some latest_url;
}
press home (where_next latest_url index) page = record page { dialog = none; location = some index }
press home (all_deleted index) page = record page { dialog = none; location = some index }
press _ _ page = page

-- What happens on the page: the menu's entry, the buttons of the open confirmation, and the answer to a
-- request that waits, by its place among them.
pub data Event : Type 0 where
  choose : PactData → Event
  pressed : Button → Event
  success : ℕ → Value → Event
  failure : ℕ → Value → Event

answered : (Page → Page) → ℕ → Page → Page
answered f k page = elim (get_elem? page.pending k) [
  | none ↦ page
  | some url ↦ f (record page { pending = remove_at k page.pending })
]

press_open : Button → Option Dialog → Page → Page
press_open b none page = page
press_open b (some dialog) page = press b dialog page

unfoldable pub step : (String → String) → Printer → Event → Page → Page
unfolding answered press_open
step h p (choose d) page = prompt_to_delete_resource h d page
step h p (pressed b) page = press_open b page.dialog page
step h p (success k body) page = answered (handle_deletion_success p body) k page
step h p (failure k response) page = answered (handle_deletion_failure p response) k page

unfoldable pub run : (String → String) → Printer → List Event → Page → Page
run h p [] page = page
run h p (e ∷ events) page = run h p events (step h p e page)
