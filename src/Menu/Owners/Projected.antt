-- ===== src/Menu/Owners/Projected.antt =====
-- A page with menus as the page alone: what the menus add is what their entries ask of it.
use pact_broker.Prelude.{ℕ, ◌≡◌, refl, ap, ◌∙◌, sym, Option, none, some, List, [], ◌∷◌, ◌++◌, All}
use pact_broker.Menu.Items.{Settings, Call, click}
use pact_broker.Menu.Store.{Menu, Store, find}
use pact_broker.Menu.Parents.Own.{new_menu}
use pact_broker.Menu.Owners.{
  Screen, owner_of, call_of, Event, settings_click, entry_click, menu_event, page_event, ready, run,
}
use pact_broker.Menu.Owners.Moved.{
  IsMoved, page_after, step-IsMoved, ready_owned, Reaches, step_returns,
}

-- Events of the page alone.
unfoldable pub run_page :
    {Page PageEvent : Type 0} → (PageEvent → Page → Page) → List PageEvent → Page → Page
run_page page_step [] p = p
run_page page_step (e ∷ events) p = run_page page_step events (page_step e p)

run_page-append :
    {Page PageEvent : Type 0} (page_step : PageEvent → Page → Page) (xs ys : List PageEvent)
    (p : Page)
    → run_page page_step (xs ++ ys) p ≡ run_page page_step ys (run_page page_step xs p)
unfolding run_page
run_page-append page_step [] ys p = refl
run_page-append page_step (e ∷ xs) ys p = run_page-append page_step xs ys (page_step e p)

-- The menus of a page: their settings, what their entries call, and what each entry asks of the page.
pub record Entries (Owner Page PageEvent : Type 0) : Type 0 where
  pub settings : List Settings
  pub call_entry : Option Call → Option Owner → Page → Page
  pub page_step : PageEvent → Page → Page
  pub entry_call : ℕ → Option Call
  pub asked : ℕ → Option Owner → List PageEvent
  pub calls :
      (key k : ℕ)
      → click k (new_menu "overlay" settings key).items
        ≡ ((new_menu "overlay" settings key).items, entry_call k)
  pub asks :
      (k : ℕ) (o : Owner) (p : Page)
      → run_page page_step (asked k (some o)) p ≡ call_entry (entry_call k) (some o) p
  pub rests :
      (k : ℕ) (call : Option Call) (p : Page)
      → run_page page_step (asked k none) p ≡ call_entry call none p

-- What happens to the page, with the clicks on the entries as what they ask.
abbrev pub projected :
    {Owner PageEvent : Type 0}
    → (ℕ → Option Owner → List PageEvent)
    → List (ℕ × Owner)
    → List (Event PageEvent)
    → List PageEvent
projected asked owners [] = []
projected asked owners (settings_click key ∷ events) = projected asked owners events
projected asked owners (entry_click key k ∷ events) =
    asked k (owner_of key owners) ++ projected asked owners events
projected asked owners (menu_event key e ∷ events) = projected asked owners events
projected asked owners (page_event e ∷ events) = e ∷ projected asked owners events

-- The element of an owner, or its menu, is what the event happens to; clicks on entries and the rest of the
-- page are free.
abbrev pub IsOn : {Owner PageEvent : Type 0} → List (ℕ × Owner) → Event PageEvent → Type 0
IsOn {Owner} owners (settings_click key) = (o : Owner) × (owner_of key owners ≡ some o)
IsOn owners (entry_click key k) = Unit
IsOn {Owner} owners (menu_event key e) = (o : Owner) × (owner_of key owners ≡ some o)
IsOn owners (page_event e) = Unit

module _ {Owner Page PageEvent : Type 0} (entries : Entries Owner Page PageEvent) where
  -- Every element that stands for an owner has a menu with the entries, which no click changes.
  Owned : Screen Owner Page → Type 0
  Owned x =
      (key : ℕ) (o : Owner)
      → owner_of key x.owners ≡ some o
      → (m : Menu) × (find key x.store.menus ≡ some m)
        × ((k : ℕ) → click k m.items ≡ (m.items, entries.entry_call k))

  ready-Owned :
      (owners : List Owner) (s : Store) (p : Page) → Owned (ready entries.settings owners s p).0
  unfolding Owned ready
  ready-Owned owners s p key o h = (
    new_menu "overlay" entries.settings key,
    ready_owned entries.settings owners s p key h,
    entries.calls key,
  )

  call_of-Owned :
      (x : Screen Owner Page) (key k : ℕ) (o : Owner)
      → Owned x
      → owner_of key x.owners ≡ some o
      → call_of k (find key x.store.menus) ≡ entries.entry_call k
  unfolding Owned
  call_of-Owned x key k o owned h =
      let (m, found, has) = owned key o h in rw found (ap (λ r. r.1) (has k))

  asked_lem :
      (k : ℕ) (owner : Option Owner) (call : Option Call) (p : Page)
      → ((o : Owner) → owner ≡ some o → call ≡ entries.entry_call k)
      → run_page entries.page_step (entries.asked k owner) p ≡ entries.call_entry call owner p
  asked_lem k none call p h = entries.rests k call p
  asked_lem k (some o) call p h = rw (h o refl) (entries.asks k o p)

  step-Owned :
      (e : Event PageEvent) (x y : Screen Owner Page)
      → IsMoved entries.call_entry entries.page_step e x y
      → Owned x
      → Owned y
  unfolding Owned
  step-Owned e x y moved owned key o h =
      let (m, found, has) = owned key o (rw moved.owners at h) in
      let (n, there, same) = moved.menus key found (λ k. ap (λ r. r.0) (has k)) in
      (n, there, rw same has)

  page_after_lem :
      (e : Event PageEvent) (events : List (Event PageEvent)) (x : Screen Owner Page)
      → Owned x
      → run_page entries.page_step (projected entries.asked x.owners (e ∷ events)) x.page
        ≡ run_page entries.page_step
            (projected entries.asked x.owners events)
            (page_after entries.call_entry entries.page_step e x)
  unfolding run_page
  page_after_lem (settings_click key) events x owned = refl
  page_after_lem (entry_click key k) events x owned =
      let owner = owner_of key x.owners in
      let later = projected entries.asked x.owners events in
      run_page-append entries.page_step (entries.asked k owner) later x.page
      ∙ ap (run_page entries.page_step later) (
          asked_lem k owner (call_of k (find key x.store.menus)) x.page
            (λ o h. call_of-Owned x key k o owned h))
  page_after_lem (menu_event key e) events x owned = refl
  page_after_lem (page_event e) events x owned = refl

  reaches :
      (e : Event PageEvent) (x : Screen Owner Page)
      → Owned x
      → IsOn x.owners e
      → Reaches entries.call_entry entries.page_step e x.store
  unfolding Owned
  reaches (settings_click key) x owned (o, h) = let (m, found, has) = owned key o h in (m, found)
  reaches (entry_click key k) x owned h = tt
  reaches (menu_event key e) x owned (o, h) = let (m, found, has) = owned key o h in (m, found)
  reaches (page_event e) x owned h = tt

  run-projected :
      (events : List (Event PageEvent)) (x : Screen Owner Page)
      → Owned x
      → All (IsOn x.owners) events
      → (after : Screen Owner Page) × (run entries.call_entry entries.page_step events x
          ≡ some after)
        × (after.page ≡ run_page entries.page_step (projected entries.asked x.owners events) x.page)
  unfolding run run_page
  run-projected [] x owned on = (x, refl, refl)
  run-projected (e ∷ events) x owned on =
      let (y, done) =
        step_returns entries.call_entry entries.page_step e x (reaches e x owned on.0) in
      let moved = step-IsMoved entries.call_entry entries.page_step e x done in
      let (after, runs, page) =
        run-projected events y (step-Owned e x y moved owned) (rw moved.owners on.1) in
      (
        after,
        rw (done, run) runs,
        page ∙ rw (moved.owners, moved.page) (sym (page_after_lem e events x owned)),
      )

  -- When the page is ready, whatever happens on it, as long as the elements that are clicked and the menus
  -- that something happens to are those of its owners: there is no error, and the page is as what the
  -- entries ask and what else happens to it leave it.
  pub run-ready-projected :
      (events : List (Event PageEvent)) (owners : List Owner) (s : Store) (p : Page)
      → let x = (ready entries.settings owners s p).0 in
        All (IsOn x.owners) events
        → (after : Screen Owner Page) × (run entries.call_entry entries.page_step events x
            ≡ some after)
          × (after.page ≡ run_page entries.page_step (projected entries.asked x.owners events) p)
  unfolding ready
  run-ready-projected events owners s p on =
      run-projected events (ready entries.settings owners s p).0 (ready-Owned owners s p) on
