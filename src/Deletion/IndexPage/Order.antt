-- ===== src/Deletion/IndexPage/Order.antt =====
-- The answers to several requests, in whatever order they come.
use pact_broker.Prelude.{
  ℕ, zero, suc, Bool, true, false, not, ◌||◌, some, List, [], ◌∷◌, ◌++◌, map, keep, any, ◌≡◌, refl,
  ap, ◌∙◌, sym, arith, get_elem?, Option-cases, inl, inr, if◌then◌else◌,
}
use pact_broker.Deletion.Message.{Printer}
use pact_broker.Deletion.IndexPage.{
  Row, Task, Page, Selector, is_in, hide_deleted_rows, slide_end, handle_deletion_success,
  remove_at, Event, success, slid, answered, step, run,
}
use pact_broker.Deletion.IndexPage.Gone.{run-append}

-- A row that a waiting request is to delete, or that slides.
abbrev pub is_doomed : List Task → Row → Bool
is_doomed tasks r = any (λ (t : Task). is_in t.rows r) tasks || r.sliding

-- Successful answers to the requests, each known by its place among those that wait when it comes.
abbrev pub answers : List ℕ → List Event
answers order = map success order

any-remove_at :
    (f : Task → Bool) (k : ℕ) (tasks : List Task) {t : Task}
    → get_elem? tasks k ≡ some t
    → any f tasks ≡ (any f (remove_at k tasks) || f t)
any-remove_at f k [] h = absurd (cc)
any-remove_at f zero (u ∷ tasks) {t} h = let same : u ≡ t = cc in rw same (ground arith)
any-remove_at f (suc k) (u ∷ tasks) h = ground (arith, any-remove_at f k tasks h)

one_row :
    (waits goes : Bool) (r : Row) (xs ys : List Row)
    → xs ≡ ys
    → (if not (waits || (goes || r.sliding))
        then record r { sliding = goes || r.sliding } ∷ xs
        else xs)
      ≡ (if not ((waits || goes) || r.sliding) then r ∷ ys else ys)
one_row true goes r xs ys e = e
one_row false true r xs ys e = e
one_row false false r xs ys e = ap (λ (l : List Row). if not r.sliding then r ∷ l else l) e

-- Beginning to slide for one of the requests changes nothing in what is left in the end.
keep-hide_deleted_rows :
    (tasks : List Task) (k : ℕ) {t : Task} (rows : List Row)
    → get_elem? tasks k ≡ some t
    → keep (λ r. not (is_doomed (remove_at k tasks) r)) (hide_deleted_rows t.rows rows)
      ≡ keep (λ r. not (is_doomed tasks r)) rows
unfolding hide_deleted_rows
keep-hide_deleted_rows tasks k [] h = refl
keep-hide_deleted_rows tasks k {t} (r ∷ rows) h =
    let rest = keep-hide_deleted_rows tasks k rows h in
    let same = any-remove_at (λ (u : Task). is_in u.rows r) k tasks h in
    one_row (any (λ (u : Task). is_in u.rows r) (remove_at k tasks)) (is_in t.rows r) r _ _ rest
    ∙ ap
        (λ (b : Bool).
          if not (b || r.sliding)
          then r ∷ keep (λ x. not (is_doomed tasks x)) rows
          else keep (λ x. not (is_doomed tasks x)) rows)
        (sym same)

module _ (select : Selector) (printer : Printer) where
  -- What is left in the end, as the page stands.
  abbrev left : Page → List Row
  left p = keep (λ r. not (is_doomed p.pending r)) p.rows

  left-success : (k : ℕ) (p : Page) → left (step select printer (success k) p) ≡ left p
  unfolding step handle_deletion_success answered
  left-success k p = elim (Option-cases (get_elem? p.pending k)) [
    | inl none_waits ↦ rw none_waits refl
    | inr (t, waits) ↦ rw waits (keep-hide_deleted_rows p.pending k p.rows waits)
  ]

  left-answers : (order : List ℕ) (p : Page) → left (run select printer (answers order) p) ≡ left p
  unfolding run
  left-answers [] p = refl
  left-answers (k ∷ order) p =
      left-answers order (step select printer (success k) p) ∙ left-success k p

  left_drained : (p : Page) → p.pending ≡ [] → (slide_end p).rows ≡ left p
  unfolding slide_end
  left_drained p h = rw h refl

  -- In whatever order the successful answers to the requests come: once no request waits any more and the
  -- rows have slid away, exactly the rows that none of the requests was for, and that did not slide
  -- before, are left, in order and as they were.
  pub run-answers :
      (order : List ℕ) (p : Page)
      → (run select printer (answers order) p).pending ≡ []
      → (run select printer (answers order ++ slid ∷ []) p).rows
        ≡ keep (λ r. not (is_doomed p.pending r)) p.rows
  unfolding step run
  run-answers order p drained =
      ap (λ (q : Page). q.rows) (run-append select printer (answers order) (slid ∷ []) p)
      ∙ left_drained (run select printer (answers order) p) drained
      ∙ left-answers order p
