-- ===== src/Deletion/IndexPage.antt =====
-- public/javascripts/index.js: deleting the pacts or the whole of an integration from the index page.
-- A set of elements that jQuery found is the numbers of its rows; it does not change when the page
-- does. The selector by two names is a parameter.
pub mod Rows
pub mod Runs
pub mod Gone
pub mod Course
pub mod Sent
pub mod Order
use pact_broker.Prelude.{
  ℕ, zero, suc, String, Bool, true, false, not, ◌&&◌, ◌||◌, Option, none, some, List, [], ◌∷◌, ◌++◌,
  map, keep, any, ◌==◌, str_eq, join, get_elem?, if◌then◌else◌,
}
use pact_broker.Js.{Value}
use pact_broker.Deletion.Message.{Printer, create_error_message}

-- A row of the table: the data of its element, whether its cells have the class "to-be-deleted", and
-- whether they are sliding up.
pub record Row : Type 0 where
  pub id : ℕ
  pub consumer_name : String
  pub provider_name : String
  pub pact_versions_url : String
  pub integration_url : String
  pub highlighted : Bool
  pub sliding : Bool

-- What a confirmation or a request remembers of its start.
pub record Task : Type 0 where
  pub url : String
  pub text : String
  pub rows : List ℕ

-- `dialog` is the open confirmation (it covers the page, so that one above another is left out),
-- `pending` the requests with no answer yet, `requests` all that were sent, and `alerts` the messages
-- shown; a message that throws is `none`.
pub record Page : Type 0 where
  pub rows : List Row
  pub dialog : Option Task
  pub pending : List Task
  pub requests : List String
  pub alerts : List (Option String)

-- Whether `[data-consumer-name="…"][data-provider-name="…"]` selects a row.
abbrev pub Selector : Type 0
Selector = (consumer_name provider_name : String) → Row → Bool

unfoldable pub create_pact_deletion_confirmation_text : Row → String
create_pact_deletion_confirmation_text r = join (
    "This will delete all versions of the pact between " ∷ r.consumer_name ∷ " and "
    ∷ r.provider_name ∷ ". It will keep " ∷ r.consumer_name ∷ " and " ∷ r.provider_name
    ∷ ", and all other data related to them (webhooks, verifications, application versions, and tags). Do you wish to continue?"
    ∷ [])

unfoldable pub create_integration_deletion_confirmation_text : Row → String
create_integration_deletion_confirmation_text r = join (
    "This will delete " ∷ r.consumer_name ∷ " and " ∷ r.provider_name
    ∷ ", and all associated data (pacts, verifications, application versions, tags and webhooks) that are not associated with other integrations. Do you wish to continue?"
    ∷ [])

abbrev pub ids : List Row → List ℕ
ids rows = map (λ r. r.id) rows

abbrev pub is_in : List ℕ → Row → Bool
is_in set r = any (λ n. n == r.id) set

unfoldable pub find_rows_to_be_deleted :
    Selector → List Row → (consumer_name provider_name : String) → List ℕ
find_rows_to_be_deleted select rows consumer provider = ids (keep (select consumer provider) rows)

-- `addClass` and `removeClass` on the cells of the rows of a set.
unfoldable pub highlight_rows_to_be_deleted : List ℕ → List Row → List Row
highlight_rows_to_be_deleted set rows =
    map {A = Row} {B = Row} (λ r. record r { highlighted = is_in set r || r.highlighted }) rows

unfoldable pub un_highlight_rows : List ℕ → List Row → List Row
un_highlight_rows set rows =
    map {A = Row} {B = Row} (λ r. record r { highlighted = not (is_in set r) && r.highlighted })
      rows

-- The cells of the rows begin to slide; at the end each row is taken out of the table.
unfoldable pub hide_deleted_rows : List ℕ → List Row → List Row
hide_deleted_rows set rows =
    map {A = Row} {B = Row} (λ r. record r { sliding = is_in set r || r.sliding }) rows

unfoldable pub slide_end : Page → Page
slide_end p = record p { rows = keep (λ r. not r.sliding) p.rows }

unfoldable pub handle_delete_resources_selected : Selector → Row → (url text : String) → Page → Page
handle_delete_resources_selected select row url text p =
    let set = find_rows_to_be_deleted select p.rows row.consumer_name row.provider_name in
    record p {
      rows = highlight_rows_to_be_deleted set p.rows;
      dialog = some (record { url = url; text = text; rows = set });
    }

unfoldable pub handle_delete_pacts_selected : Selector → Row → Page → Page
handle_delete_pacts_selected select row =
    handle_delete_resources_selected select row row.pact_versions_url
      (create_pact_deletion_confirmation_text row)

unfoldable pub handle_delete_integrations_selected : Selector → Row → Page → Page
handle_delete_integrations_selected select row =
    handle_delete_resources_selected select row row.integration_url
      (create_integration_deletion_confirmation_text row)

-- The two buttons of the confirmation: `cancelled` and `confirmed`, with `deleteResources`.
unfoldable pub cancelled : Task → Page → Page
cancelled t p = record p { rows = un_highlight_rows t.rows p.rows; dialog = none }

unfoldable pub confirmed : Task → Page → Page
confirmed t p = record p {
  dialog = none;
  pending = p.pending ++ t ∷ [];
  requests = p.requests ++ t.url ∷ [];
}

unfoldable pub handle_deletion_success : List ℕ → Page → Page
handle_deletion_success set p = record p { rows = hide_deleted_rows set p.rows }

unfoldable pub handle_deletion_failure : Printer → List ℕ → Value → Page → Page
handle_deletion_failure printer set response p = record p {
  rows = un_highlight_rows set p.rows;
  alerts = p.alerts ++ create_error_message printer response ∷ [];
}

abbrev pub remove_at {ℓ} : {A : Type ℓ} → ℕ → List A → List A
remove_at n [] = []
remove_at zero (x ∷ xs) = xs
remove_at (suc n) (x ∷ xs) = x ∷ remove_at n xs

-- What happens on the page: the entries of a row's menu, the buttons of the confirmation, the answer
-- to a request that waits, by its place among them, and the end of the sliding.
pub data Event : Type 0 where
  delete_pacts : Row → Event
  delete_integration : Row → Event
  cancel : Event
  confirm : Event
  success : ℕ → Event
  failure : ℕ → Value → Event
  slid : Event

answered : (Task → Page → Page) → Option Task → Page → Page
answered f none p = p
answered f (some t) p = f t p

unfoldable pub step : Selector → Printer → Event → Page → Page
unfolding answered
step select printer (delete_pacts row) p = handle_delete_pacts_selected select row p
step select printer (delete_integration row) p = handle_delete_integrations_selected select row p
step select printer cancel p = answered cancelled p.dialog p
step select printer confirm p = answered confirmed p.dialog p
step select printer (success k) p =
    answered (λ t q. handle_deletion_success t.rows (record q { pending = remove_at k q.pending }))
      (get_elem? p.pending k) p
step select printer (failure k response) p =
    answered
      (λ t q.
        handle_deletion_failure printer t.rows response
          (record q { pending = remove_at k q.pending }))
      (get_elem? p.pending k) p
step select printer slid p = slide_end p

unfoldable pub run : Selector → Printer → List Event → Page → Page
unfolding step
run select printer [] p = p
run select printer (e ∷ events) p = run select printer events (step select printer e p)
