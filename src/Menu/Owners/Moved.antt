-- ===== src/Menu/Owners/Moved.antt =====
-- What an event leaves of a page with menus.
use pact_broker.Prelude.{
  is_absent, some_inj, ℕ, subst, ◌≡◌, refl, ap, Option, some, List, [], ◌∷◌, All, ◌==◌, ==_iff,
  length, Option-cases, Bool-cases, inl, inr,
}
use pact_broker.Menu.Items.{Settings, Call, click}
use pact_broker.Menu.Store.{Menu, Store, find, dispatch, open_action, item_click}
use pact_broker.Menu.Store as MenuStore
use pact_broker.Menu.Store.Apart.{find-dispatch, dispatch_lem, dispatch_click}
use pact_broker.Menu.Store.Events.{items-step}
use pact_broker.Menu.Owners.{
  Screen, pair_up, owner_of, Event, settings_click, entry_click, menu_event, page_event, with_store,
  call_of, ready, step,
}
use pact_broker.Menu.Parents.{init_all}
use pact_broker.Menu.Parents.Own.{new_menu, init_all_made}

-- The menu of an element, with the same items.
abbrev pub Keeps : Menu → ℕ → Store → Type 0
Keeps m key s = (n : Menu) × (find key s.menus ≡ some n) × (n.items ≡ m.items)

module _ {Owner Page PageEvent : Type 0} (call_entry : Option Call → Option Owner → Page → Page)
    (page_step : PageEvent → Page → Page) where
  -- The page after an event.
  abbrev pub page_after : Event PageEvent → Screen Owner Page → Page
  page_after (settings_click key) x = x.page
  page_after (entry_click key k) x =
      call_entry (call_of k (find key x.store.menus)) (owner_of key x.owners) x.page
  page_after (menu_event key e) x = x.page
  page_after (page_event e) x = page_step e x.page

  pub record IsMoved (e : Event PageEvent) (before after : Screen Owner Page) : Type 0 where
    pub page : after.page ≡ page_after e before
    pub owners : after.owners ≡ before.owners
    pub menus :
        (key : ℕ) {m : Menu}
        → find key before.store.menus ≡ some m
        → ((k : ℕ) → (click k m.items).0 ≡ m.items)
        → Keeps m key after.store

  keeps :
      (key other : ℕ) (d : MenuStore.Event) (s : Store) {m : Menu} {next : Store}
      → find other s.menus ≡ some m
      → ((k : ℕ) → (click k m.items).0 ≡ m.items)
      → dispatch key d s ≡ some next
      → Keeps m other next
  keeps key other d s {m} found kept done =
      let moved = find-dispatch other key d s found done in
      elim (Bool-cases (key == other)) [
        | inl here ↦ (MenuStore.step d m, rw here at moved, items-step d m kept)
        | inr apart ↦ (m, rw apart at moved, refl)
      ]

  dispatched :
      (e : Event PageEvent) (key : ℕ) (d : MenuStore.Event) (x y : Screen Owner Page) (p : Page)
      → p ≡ page_after e x
      → with_store (dispatch key d x.store) (record x { page = p }) ≡ some y
      → IsMoved e x y
  unfolding with_store
  dispatched e key d x y p same h = elim (Option-cases (dispatch key d x.store)) [
    | inl fails ↦ absurd (is_absent (rw (fails, with_store) at h))
    | inr (next, done) ↦
        let is : record x { store = next; page = p } ≡ y = some_inj (rw (done, with_store) at h) in
        subst (IsMoved e x) is (record {
          page = same;
          owners = refl;
          menus = λ other found kept. keeps key other d x.store found kept done;
        })
  ]

  pub step-IsMoved :
      (e : Event PageEvent) (x : Screen Owner Page) {y : Screen Owner Page}
      → step call_entry page_step e x ≡ some y
      → IsMoved e x y
  unfolding step with_store
  step-IsMoved (settings_click key) x {y} h =
      dispatched (settings_click key) key open_action x y x.page refl h
  step-IsMoved (entry_click key k) x {y} h =
      dispatched (entry_click key k) key (item_click k) x y _ refl h
  step-IsMoved (menu_event key d) x {y} h = dispatched (menu_event key d) key d x y x.page refl h
  step-IsMoved (page_event e) x {y} h =
      subst (IsMoved (page_event e) x) (some_inj h)
        (record { page = refl; owners = refl; menus = λ key {m} found kept. (m, found, refl) })

  -- An event of a menu that is there, a click on an entry, or an event of the rest of the page.
  abbrev pub Reaches : Event PageEvent → Store → Type 0
  Reaches (settings_click key) s = (m : Menu) × (find key s.menus ≡ some m)
  Reaches (entry_click key k) s = Unit
  Reaches (menu_event key e) s = (m : Menu) × (find key s.menus ≡ some m)
  Reaches (page_event e) s = Unit

  pub step_returns :
      (e : Event PageEvent) (x : Screen Owner Page)
      → Reaches e x.store
      → (y : Screen Owner Page) × (step call_entry page_step e x ≡ some y)
  unfolding step with_store
  step_returns (settings_click key) x (m, found) =
      (_, ap (λ o. with_store o x) (dispatch_lem key open_action x.store found))
  step_returns (entry_click key k) x h =
      let page = page_after (entry_click key k) x in
      let (next, done) = dispatch_click key k x.store in
      (_, ap (λ o. with_store o (record x { page = page })) done)
  step_returns (menu_event key d) x (m, found) =
      (_, ap (λ o. with_store o x) (dispatch_lem key d x.store found))
  step_returns (page_event e) x h = (_, refl)

owner_of-All :
    {Owner : Type 0} (P : ℕ → Type 0) (keys : List ℕ) (owners : List Owner) (key : ℕ) {o : Owner}
    → All P keys
    → owner_of key (pair_up keys owners) ≡ some o
    → P key
owner_of-All P [] owners key all h = absurd (is_absent h)
owner_of-All P (n ∷ keys) [] key all h = absurd (is_absent h)
owner_of-All P (n ∷ keys) (o ∷ owners) key all h = elim (Bool-cases (n == key)) [
  | inl here ↦ subst P ((==_iff n key).0 here) all.0
  | inr other ↦ owner_of-All P keys owners key all.1 (rw other at h)
]

-- When the page is ready, an element with an owner has its new menu.
pub ready_owned :
    {Owner Page : Type 0} (settings : List Settings) (owners : List Owner) (s : Store) (p : Page)
    (key : ℕ) {o : Owner}
    → let (x, keys) = ready settings owners s p in
      owner_of key x.owners ≡ some o
      → find key x.store.menus ≡ some (new_menu "overlay" settings key)
unfolding ready
ready_owned settings owners s p key h =
    let (count, ascend, all) = init_all_made "overlay" settings (length owners) s in
    owner_of-All
      (λ key.
        find key (init_all "overlay" settings (length owners) s).0.menus
        ≡ some (new_menu "overlay" settings key))
      (init_all "overlay" settings (length owners) s).1 owners key all h
