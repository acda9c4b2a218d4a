-- ===== src/Deletion/IndexPage/Runs.antt =====
-- What no course of events does without a confirmation.
use pact_broker.Prelude.{
  ℕ, String, false, not, Option, none, some, List, [], ◌∷◌, keep, ◌≡◌, ◌≢◌, refl, ap, sym, subst,
  ◌∙◌, All, arith, get_elem?,
}
use pact_broker.Deletion.Message.{Printer}
use pact_broker.Deletion.IndexPage.{
  Row, Task, Page, Selector, ids, highlight_rows_to_be_deleted, un_highlight_rows, slide_end,
  handle_delete_resources_selected, handle_delete_pacts_selected,
  handle_delete_integrations_selected, cancelled, Event, delete_pacts, delete_integration, cancel,
  confirm, success, failure, slid, answered, step, run,
}

abbrev IsStill : List Row → Type 0
IsStill rows = All (λ r. r.sliding ≡ false) rows

-- The same rows by their numbers, none sliding; no request was sent or waits.
pub record IsKept (before after : Page) : Type 0 where
  pub same_ids : ids after.rows ≡ ids before.rows
  pub still : IsStill after.rows
  pub none_waits : after.pending ≡ []
  pub none_sent : after.requests ≡ before.requests

highlight-IsStill :
    (set : List ℕ) (rows : List Row)
    → IsStill rows
    → (ids (highlight_rows_to_be_deleted set rows) ≡ ids rows)
      × IsStill (highlight_rows_to_be_deleted set rows)
unfolding highlight_rows_to_be_deleted
highlight-IsStill set [] h = (refl, tt)
highlight-IsStill set (r ∷ rows) h =
    let (same, still) = highlight-IsStill set rows h.1 in (ap (λ l. r.id ∷ l) same, (h.0, still))

un_highlight-IsStill :
    (set : List ℕ) (rows : List Row)
    → IsStill rows
    → (ids (un_highlight_rows set rows) ≡ ids rows) × IsStill (un_highlight_rows set rows)
unfolding un_highlight_rows
un_highlight-IsStill set [] h = (refl, tt)
un_highlight-IsStill set (r ∷ rows) h =
    let (same, still) = un_highlight-IsStill set rows h.1 in (ap (λ l. r.id ∷ l) same, (h.0, still))

keep_still : (rows : List Row) → IsStill rows → keep (λ r. not r.sliding) rows ≡ rows
keep_still [] h = refl
keep_still (r ∷ rows) h = ground (arith, keep_still rows h.1)

module _ (select : Selector) (printer : Printer) (before : Page) where
  select-IsKept :
      (row : Row) (url text : String) (p : Page)
      → IsKept before p
      → IsKept before (handle_delete_resources_selected select row url text p)
  unfolding handle_delete_resources_selected
  select-IsKept row url text p h =
      let (same, still) = highlight-IsStill _ p.rows h.still in
      record {
        same_ids = same ∙ h.same_ids;
        still = still;
        none_waits = h.none_waits;
        none_sent = h.none_sent;
      }

  cancelled-IsKept : (t : Task) (p : Page) → IsKept before p → IsKept before (cancelled t p)
  unfolding cancelled
  cancelled-IsKept t p h =
      let (same, still) = un_highlight-IsStill t.rows p.rows h.still in
      record {
        same_ids = same ∙ h.same_ids;
        still = still;
        none_waits = h.none_waits;
        none_sent = h.none_sent;
      }

  answered_cancel :
      (o : Option Task) (p : Page) → IsKept before p → IsKept before (answered cancelled o p)
  unfolding answered
  answered_cancel none p h = h
  answered_cancel (some t) p h = cancelled-IsKept t p h

  answered_nothing :
      (f : Task → Page → Page) (k : ℕ) (p : Page)
      → IsKept before p
      → IsKept before (answered f (get_elem? p.pending k) p)
  unfolding answered
  answered_nothing f k p h =
      subst (λ (l : List Task). IsKept before (answered f (get_elem? l k) p)) (sym h.none_waits) h

  step-IsKept :
      (e : Event) (p : Page)
      → e ≢ confirm
      → IsKept before p
      → IsKept before (step select printer e p)
  unfolding step handle_delete_pacts_selected handle_delete_integrations_selected slide_end
  step-IsKept (delete_pacts row) p ne h = select-IsKept row _ _ p h
  step-IsKept (delete_integration row) p ne h = select-IsKept row _ _ p h
  step-IsKept cancel p ne h = answered_cancel p.dialog p h
  step-IsKept confirm p ne h = absurd (ne refl)
  step-IsKept (success k) p ne h = answered_nothing _ k p h
  step-IsKept (failure k response) p ne h = answered_nothing _ k p h
  step-IsKept slid p ne h =
      subst (λ rows. IsKept before (record p { rows = rows })) (sym (keep_still p.rows h.still)) h

  run-IsKept_from :
      (events : List Event) (p : Page)
      → All (λ e. e ≢ confirm) events
      → IsKept before p
      → IsKept before (run select printer events p)
  unfolding run
  run-IsKept_from [] p ne h = h
  run-IsKept_from (e ∷ events) p ne h =
      run-IsKept_from events (step select printer e p) ne.1 (step-IsKept e p ne.0 h)

-- Whatever happens on a page on which no request waits and no row slides: as long as nothing is
-- confirmed, no row leaves the table, no row slides, and no request is sent.
pub run-IsKept :
    (select : Selector) (printer : Printer) (events : List Event) (p : Page)
    → All (λ e. e ≢ confirm) events
    → p.pending ≡ []
    → All (λ r. r.sliding ≡ false) p.rows
    → IsKept p (run select printer events p)
run-IsKept select printer events p ne idle still =
    run-IsKept_from select printer p events p ne
      (record { same_ids = refl; still = still; none_waits = idle; none_sent = refl })
