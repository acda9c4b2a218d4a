-- ===== src/Deletion/IndexPage/Rows.antt =====
-- Which rows a deletion marks, keeps and removes.
use pact_broker.Prelude.{
  ℕ, String, Bool, true, false, not, ◌&&◌, ◌||◌, none, List, [], ◌∷◌, ◌++◌, keep, any, ◌==◌, ◌≡◌,
  refl, ap₂, sym, ◌∙◌, All, arith, if◌then◌else◌,
}
use pact_broker.Deletion.IndexPage.{
  Row, Task, Page, Selector, ids, is_in, find_rows_to_be_deleted, highlight_rows_to_be_deleted,
  un_highlight_rows, hide_deleted_rows, slide_end, handle_delete_resources_selected, cancelled,
  confirmed, handle_deletion_success, handle_deletion_failure,
}
use pact_broker.Js.{Value}
use pact_broker.Deletion.Message.{Printer, create_error_message}

-- No two rows have one number.
abbrev pub DistinctIds : List Row → Type 0
DistinctIds [] = Unit
DistinctIds (r ∷ rows) = (any (λ n. n == r.id) (ids rows) ≡ false) × DistinctIds rows

-- The rows of a table at rest: none is highlighted or sliding.
abbrev pub IsAtRest : List Row → Type 0
IsAtRest rows = All (λ r. (r.highlighted ≡ false) × (r.sliding ≡ false)) rows

unfound :
    (f : Row → Bool) (n : ℕ) (rows : List Row)
    → any (λ m. m == n) (ids rows) ≡ false
    → any (λ m. m == n) (ids (keep f rows)) ≡ false
unfound f n [] h = refl
unfound f n (r ∷ rows) h = ground (arith, unfound f n rows)

is_in-cons :
    (f : Row → Bool) (n : ℕ) (set : List ℕ) (rows : List Row)
    → any (λ m. m == n) (ids rows) ≡ false
    → All (λ r. is_in set r ≡ f r) rows
    → All (λ r. is_in (n ∷ set) r ≡ f r) rows
is_in-cons f n set [] h all = tt
is_in-cons f n set (r ∷ rows) h all = ground (arith, is_in-cons f n set rows)

found-cons :
    (f : Row → Bool) (r : Row) (found rows : List Row) (b : Bool)
    → f r ≡ b
    → any (λ m. m == r.id) (ids rows) ≡ false
    → any (λ m. m == r.id) (ids found) ≡ false
    → All (λ s. is_in (ids found) s ≡ f s) rows
    → All (λ s. is_in (ids (if b then r ∷ found else found)) s ≡ f s) (r ∷ rows)
found-cons f r found rows true e h k all = (ground arith, is_in-cons f r.id (ids found) rows h all)
found-cons f r found rows false e h k all = (k ∙ sym e, all)

-- The set that a test finds, asked for a row of the table, is the test.
is_in-found :
    (f : Row → Bool) (rows : List Row)
    → DistinctIds rows
    → All (λ r. is_in (ids (keep f rows)) r ≡ f r) rows
is_in-found f [] d = tt
is_in-found f (r ∷ rows) d =
    found-cons f r (keep f rows) rows (f r) refl d.0 (unfound f r.id rows d.0)
      (is_in-found f rows d.1)

keep-not :
    (f g : Row → Bool) (rows : List Row)
    → All (λ r. g r ≡ f r) rows
    → keep (λ r. not (g r)) rows ≡ keep (λ r. not (f r)) rows
keep-not f g [] h = refl
keep-not f g (r ∷ rows) h = ground (arith, keep-not f g rows)

-- Marking a set and taking the mark off again.
pub un_highlight-highlight :
    (set : List ℕ) (rows : List Row)
    → IsAtRest rows
    → un_highlight_rows set (highlight_rows_to_be_deleted set rows) ≡ rows
unfolding un_highlight_rows highlight_rows_to_be_deleted
un_highlight-highlight set [] h = refl
un_highlight-highlight set (r ∷ rows) h =
    let same : not (is_in set r) && (is_in set r || r.highlighted) ≡ r.highlighted = ground arith in
    ap₂ (λ (m : Bool) (l : List Row). record r { highlighted = m } ∷ l) same
      (un_highlight-highlight set rows h.1)

-- Marking a set, hiding it and waiting for the end leaves the rows that are not in it, unchanged.
pub slide-hide-highlight :
    (set : List ℕ) (rows : List Row)
    → IsAtRest rows
    → keep (λ r. not r.sliding) (hide_deleted_rows set (highlight_rows_to_be_deleted set rows))
      ≡ keep (λ r. not (is_in set r)) rows
unfolding hide_deleted_rows highlight_rows_to_be_deleted
slide-hide-highlight set [] h = refl
slide-hide-highlight set (r ∷ rows) h = ground (arith, slide-hide-highlight set rows h.1)

-- The rows of the integration of a row, and what the confirmation of its deletion remembers.
abbrev pub chosen : Selector → Row → Page → List ℕ
chosen select row p = find_rows_to_be_deleted select p.rows row.consumer_name row.provider_name

abbrev pub task : Selector → Row → (url text : String) → Page → Task
task select row url text p = record { url = url; text = text; rows = chosen select row p }

module _ (select : Selector) (row : Row) (url text : String) (p : Page)
    (rest : IsAtRest p.rows) where
  -- In a table with no row highlighted or sliding, choosing a deletion and cancelling it leaves all rows
  -- as they were, sends no request and closes the confirmation.
  pub cancelled_lem :
      let after =
        cancelled
          (task select row url text p)
          (handle_delete_resources_selected select row url text p) in
      (after.rows ≡ p.rows) × (after.requests ≡ p.requests) × (after.dialog ≡ none)
  unfolding cancelled handle_delete_resources_selected
  cancelled_lem = (un_highlight-highlight (chosen select row p) p.rows rest, refl, refl)

  -- In a table with no row highlighted or sliding, choosing a deletion, confirming it and having it fail
  -- leaves all rows as they were, sends one request, to the given address, and shows the message for the
  -- answer.
  pub failure_lem :
      (printer : Printer) (response : Value)
      → let asked = handle_delete_resources_selected select row url text p in
        let after =
          handle_deletion_failure printer
            (chosen select row p)
            response
            (confirmed (task select row url text p) asked) in
        (after.rows ≡ p.rows)
        × (after.requests ≡ p.requests ++ url ∷ [])
        × (after.alerts ≡ p.alerts ++ create_error_message printer response ∷ [])
  unfolding handle_delete_resources_selected handle_deletion_failure confirmed
  failure_lem printer response =
      (un_highlight-highlight (chosen select row p) p.rows rest, refl, refl)

  -- In a table with no row highlighted or sliding and no number twice, choosing a deletion, confirming it
  -- and having it succeed takes out of the table exactly the rows that the selector finds, in the end;
  -- the others stay as they were, in order.
  pub deletion_lem :
      DistinctIds p.rows
      → let asked = handle_delete_resources_selected select row url text p in
        (slide_end (
          handle_deletion_success
            (chosen select row p)
            (confirmed (task select row url text p) asked))).rows
        ≡ keep (λ r. not (select row.consumer_name row.provider_name r)) p.rows
  unfolding handle_delete_resources_selected slide_end handle_deletion_success confirmed
      find_rows_to_be_deleted
  deletion_lem distinct =
      let f = select row.consumer_name row.provider_name in
      slide-hide-highlight (chosen select row p) p.rows rest
      ∙ keep-not f (is_in (chosen select row p)) p.rows (is_in-found f p.rows distinct)
