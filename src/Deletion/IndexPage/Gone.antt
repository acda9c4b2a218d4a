-- ===== src/Deletion/IndexPage/Gone.antt =====
-- The rows of a deletion that succeeded leave the table, in whatever order things happen.
use pact_broker.Prelude.{
  ℕ, Bool, true, false, not, ◌&&◌, ◌||◌, Option, none, some, List, [], ◌∷◌, ◌++◌, ◌≡◌, refl, ◌⊎◌,
  All, All-map, All-keep, arith, get_elem?,
}
use pact_broker.Deletion.Message.{Printer}
use pact_broker.Deletion.IndexPage.{
  Row, Task, Page, Selector, is_in, highlight_rows_to_be_deleted, un_highlight_rows,
  hide_deleted_rows, slide_end, handle_delete_resources_selected, handle_delete_pacts_selected,
  handle_delete_integrations_selected, cancelled, confirmed, handle_deletion_success,
  handle_deletion_failure, remove_at, Event, delete_pacts, delete_integration, cancel, confirm,
  success, failure, slid, answered, step, run,
}

-- A fact about rows that neither marking a row nor letting it slide can end.
pub record IsLasting (P : Row → Type 0) : Type 0 where
  pub mark : (r : Row) (b : Bool) → P r → P (record r { highlighted = b })
  pub slide : (r : Row) (b : Bool) → P r → P (record r { sliding = b || r.sliding })

module _ (select : Selector) (printer : Printer) (P : Row → Type 0) (lasting : IsLasting P) where
  highlight-lasting :
      (set : List ℕ) (rows : List Row) → All P rows → All P (highlight_rows_to_be_deleted set rows)
  unfolding highlight_rows_to_be_deleted
  highlight-lasting set rows =
      All-map P P _ rows (λ r. lasting.mark r (is_in set r || r.highlighted))

  un_highlight-lasting :
      (set : List ℕ) (rows : List Row) → All P rows → All P (un_highlight_rows set rows)
  unfolding un_highlight_rows
  un_highlight-lasting set rows =
      All-map P P _ rows (λ r. lasting.mark r (not (is_in set r) && r.highlighted))

  hide-lasting : (set : List ℕ) (rows : List Row) → All P rows → All P (hide_deleted_rows set rows)
  unfolding hide_deleted_rows
  hide-lasting set rows = All-map P P _ rows (λ r. lasting.slide r (is_in set r))

  answered-lasting :
      (f : Task → Page → Page) (o : Option Task) (p : Page)
      → ((t : Task) → All P (f t p).rows)
      → All P p.rows
      → All P (answered f o p).rows
  unfolding answered
  answered-lasting f none p h all = all
  answered-lasting f (some t) p h all = h t

  -- What holds of all rows of the table goes on holding of them.
  pub step-lasting : (e : Event) (p : Page) → All P p.rows → All P (step select printer e p).rows
  unfolding step handle_delete_pacts_selected handle_delete_integrations_selected
      handle_delete_resources_selected cancelled confirmed handle_deletion_success
      handle_deletion_failure slide_end
  step-lasting (delete_pacts row) p all = highlight-lasting _ p.rows all
  step-lasting (delete_integration row) p all = highlight-lasting _ p.rows all
  step-lasting cancel p all =
      answered-lasting cancelled p.dialog p (λ t. un_highlight-lasting t.rows p.rows all) all
  step-lasting confirm p all = answered-lasting confirmed p.dialog p (λ t. all) all
  step-lasting (success k) p all =
      answered-lasting
        (λ t q. handle_deletion_success t.rows (record q { pending = remove_at k q.pending }))
        (get_elem? p.pending k) p (λ t. hide-lasting t.rows p.rows all) all
  step-lasting (failure k response) p all =
      answered-lasting
        (λ t q.
          handle_deletion_failure printer t.rows response
            (record q { pending = remove_at k q.pending }))
        (get_elem? p.pending k) p (λ t. un_highlight-lasting t.rows p.rows all) all
  step-lasting slid p all = All-keep P P _ p.rows (λ r h kept. h) all

  pub run-lasting :
      (events : List Event) (p : Page) → All P p.rows → All P (run select printer events p).rows
  unfolding run
  run-lasting [] p all = all
  run-lasting (e ∷ events) p all =
      run-lasting events (step select printer e p) (step-lasting e p all)

abbrev IsOutside : List ℕ → Row → Type 0
IsOutside set r = is_in set r ≡ false

-- A row of the set slides.
abbrev IsLeaving : List ℕ → Row → Type 0
IsLeaving set r = (is_in set r ≡ false) ⊎ (r.sliding ≡ true)

IsOutside-IsLasting : (set : List ℕ) → IsLasting (IsOutside set)
IsOutside-IsLasting set = record { mark = λ r b h. h; slide = λ r b h. h }

IsLeaving-IsLasting : (set : List ℕ) → IsLasting (IsLeaving set)
IsLeaving-IsLasting set = record { mark = λ r b h. h; slide = λ r b h. ground arith }

module _ (select : Selector) (printer : Printer) where
  pub run-append :
      (xs ys : List Event) (p : Page)
      → run select printer (xs ++ ys) p ≡ run select printer ys (run select printer xs p)
  unfolding run
  run-append [] ys p = refl
  run-append (e ∷ xs) ys p = run-append xs ys (step select printer e p)

  every_row : (rows : List Row) → All (λ r. Unit {0}) rows
  every_row [] = tt
  every_row (r ∷ rows) = (tt, every_row rows)

  success-IsLeaving :
      (k : ℕ) (p : Page) {t : Task}
      → get_elem? p.pending k ≡ some t
      → All (IsLeaving t.rows) (step select printer (success k) p).rows
  unfolding step answered handle_deletion_success hide_deleted_rows
  success-IsLeaving k p {t} h =
      rw (h, answered)
        (All-map (λ r. Unit {0}) (IsLeaving t.rows) _ p.rows (λ r u. ground arith)
          (every_row p.rows))

  slid-IsOutside :
      (set : List ℕ) (p : Page)
      → All (IsLeaving set) p.rows
      → All (IsOutside set) (step select printer slid p).rows
  unfolding step slide_end
  slid-IsOutside set p =
      All-keep (IsLeaving set) (IsOutside set) _ p.rows (λ r leaving still. ground arith)

  -- Where a request waits, a successful answer to it, with anything happening before its rows have slid
  -- away and anything after that, leaves none of its rows in the table.
  pub run_success-IsOutside :
      (k : ℕ) (p : Page) {t : Task} (before after : List Event)
      → get_elem? p.pending k ≡ some t
      → All
          (λ r. is_in t.rows r ≡ false)
          (run select printer (success k ∷ (before ++ slid ∷ after)) p).rows
  unfolding run
  run_success-IsOutside k p {t} before after h =
      let start = step select printer (success k) p in
      let slides =
        run-lasting select printer (IsLeaving t.rows) (IsLeaving-IsLasting t.rows) before start
          (success-IsLeaving k p h) in
      rw (run-append before (slid ∷ after) start) (
        run-lasting select printer (IsOutside t.rows) (IsOutside-IsLasting t.rows) after _
          (slid-IsOutside t.rows (run select printer before start) slides))
