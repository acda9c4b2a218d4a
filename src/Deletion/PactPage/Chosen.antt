-- ===== src/Deletion/PactPage/Chosen.antt =====
-- Which pacts the page of a pact deletes.
use pact_broker.Prelude.{
  ℕ, String, Bool, true, false, Option, none, some, List, [], ◌∷◌, ◌++◌, ◌≡◌, sym, subst, All,
  get_elem?, if◌then◌else◌, Option-cases, inl, inr,
}
use pact_broker.Js.{Value, holds, property}
use pact_broker.Deletion.Message.{Printer, ◌>>=◌, create_error_message}
use pact_broker.Deletion.IndexPage.{remove_at}
use pact_broker.Deletion.PactPage.{
  Dialog, delete_pact, where_next, all_deleted, Page, prompt_to_delete_resource, next_dialog, href,
  index_of, delete_resource, handle_deletion_success, handle_deletion_failure, Button, delete,
  cancel, latest, home, press, Event, choose, pressed, success, failure, answered, press_open, step,
  run,
}

module _ (P : String → Type 0) where
  -- What an open confirmation would delete is as said.
  abbrev pub AsksIn : Option Dialog → Type 0
  AsksIn (some (delete_pact text url)) = P url
  AsksIn _ = Unit

  abbrev pub ChoosesIn : Event → Type 0
  ChoosesIn (choose d) = P d.pact_url
  ChoosesIn _ = Unit

  record IsWithin (page : Page) : Type 0 where
    asks : AsksIn page.dialog
    sends : All P page.requests

  All-last : (l : List String) (url : String) → All P l → P url → All P (l ++ url ∷ [])
  All-last [] url all h = (h, tt)
  All-last (x ∷ l) url all h = (all.0, All-last l url all.1 h)

  AsksIn-bind :
      {A : Type 0} (o : Option A) (f : A → Option Dialog)
      → ((a : A) → AsksIn (f a))
      → AsksIn (o >>= f)
  AsksIn-bind none f h = tt
  AsksIn-bind (some a) f h = h a

  AsksIn-if : (b : Bool) (x y : Option Dialog) → AsksIn x → AsksIn y → AsksIn (if b then x else y)
  AsksIn-if true x y h k = h
  AsksIn-if false x y h k = k

  AsksIn-next_dialog : (p : Printer) (body : Value) → AsksIn (next_dialog p body)
  unfolding next_dialog
  AsksIn-next_dialog p body = AsksIn-bind (property p.inherited body "_links") _ λ links.
      AsksIn-bind (property p.inherited links "pb:latest-pact-version") _ λ latest.
        AsksIn-if (holds latest) _ _
          (AsksIn-bind (href p latest) _ λ latest_url. AsksIn-bind (index_of p links) _ λ index. tt)
          (AsksIn-bind (index_of p links) _ λ index. tt)

  press-IsWithin :
      (b : Button) (d : Dialog) (page : Page)
      → AsksIn (some d)
      → IsWithin page
      → IsWithin (press b d page)
  unfolding press delete_resource
  press-IsWithin delete (delete_pact text url) page asked h = record {
    asks = tt;
    sends = All-last page.requests url h.sends asked;
  }
  press-IsWithin cancel (delete_pact text url) page asked h = record { asks = tt; sends = h.sends }
  press-IsWithin latest (where_next latest_url index) page asked h = record {
    asks = tt;
    sends = h.sends;
  }
  press-IsWithin home (where_next latest_url index) page asked h = record {
    asks = tt;
    sends = h.sends;
  }
  press-IsWithin home (all_deleted index) page asked h = record { asks = tt; sends = h.sends }
  press-IsWithin delete (where_next latest_url index) page asked h = h
  press-IsWithin delete (all_deleted index) page asked h = h
  press-IsWithin cancel (where_next latest_url index) page asked h = h
  press-IsWithin cancel (all_deleted index) page asked h = h
  press-IsWithin latest (delete_pact text url) page asked h = h
  press-IsWithin latest (all_deleted index) page asked h = h
  press-IsWithin home (delete_pact text url) page asked h = h

  press_open-IsWithin :
      (b : Button) (o : Option Dialog) (page : Page)
      → AsksIn o
      → IsWithin page
      → IsWithin (press_open b o page)
  unfolding press_open
  press_open-IsWithin b none page asked h = h
  press_open-IsWithin b (some d) page asked h = press-IsWithin b d page asked h

  answered-IsWithin :
      (f : Page → Page) (k : ℕ) (page : Page)
      → ((q : Page) → IsWithin q → IsWithin (f q))
      → IsWithin page
      → IsWithin (answered f k page)
  unfolding answered
  answered-IsWithin f k page keeps h = elim (Option-cases (get_elem? page.pending k)) [
    | inl none_waits ↦ rw (none_waits, answered) h
    | inr (url, waits) ↦
        rw (waits, answered)
          (keeps (record page { pending = remove_at k page.pending })
            (record { asks = h.asks; sends = h.sends }))
  ]

  module _ (h : String → String) (p : Printer) where
    success-IsWithin :
        (body : Value) (page : Page)
        → IsWithin page
        → IsWithin (handle_deletion_success p body page)
    unfolding handle_deletion_success
    success-IsWithin body page w = elim (Option-cases (next_dialog p body)) [
      | inl fails ↦ rw (fails, handle_deletion_success) (record { asks = w.asks; sends = w.sends })
      | inr (d, e) ↦
          rw (e, handle_deletion_success)
            (record { asks = subst AsksIn e (AsksIn-next_dialog p body); sends = w.sends })
    ]

    failure-IsWithin :
        (response : Value) (page : Page)
        → IsWithin page
        → IsWithin (handle_deletion_failure p response page)
    unfolding handle_deletion_failure
    failure-IsWithin response page w = elim (Option-cases (create_error_message p response)) [
      | inl fails ↦ rw (fails, handle_deletion_failure) (record { asks = w.asks; sends = w.sends })
      | inr (message, e) ↦
          rw (e, handle_deletion_failure) (record { asks = w.asks; sends = w.sends })
    ]

    step-IsWithin :
        (e : Event) (page : Page) → ChoosesIn e → IsWithin page → IsWithin (step h p e page)
    unfolding step prompt_to_delete_resource
    step-IsWithin (choose d) page c w = record { asks = c; sends = w.sends }
    step-IsWithin (pressed b) page c w = press_open-IsWithin b page.dialog page w.asks w
    step-IsWithin (success k body) page c w =
        answered-IsWithin (handle_deletion_success p body) k page (success-IsWithin body) w
    step-IsWithin (failure k response) page c w =
        answered-IsWithin (handle_deletion_failure p response) k page (failure-IsWithin response) w

    run-IsWithin :
        (events : List Event) (page : Page)
        → All ChoosesIn events
        → IsWithin page
        → IsWithin (run h p events page)
    unfolding run
    run-IsWithin [] page c w = w
    run-IsWithin (e ∷ events) page c w =
        run-IsWithin events (step h p e page) c.1 (step-IsWithin e page c.0 w)

    -- Whatever happens on the page of a pact, on which no confirmation is open yet: if all pacts that are
    -- chosen have addresses of a set, and so have the requests that were sent before, then all requests
    -- that are sent go to addresses of the set.
    pub requests-run-All :
        (events : List Event) (page : Page)
        → page.dialog ≡ none
        → All ChoosesIn events
        → All P page.requests
        → All P (run h p events page).requests
    requests-run-All events page closed chosen sent =
        (run-IsWithin events page chosen
          (record { asks = subst AsksIn (sym closed) tt; sends = sent })).sends
