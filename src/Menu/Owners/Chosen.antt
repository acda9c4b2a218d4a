-- ===== src/Menu/Owners/Chosen.antt =====
-- From the element of an owner to the entry of its menu.
use pact_broker.Prelude.{
  is_absent, ℕ, zero, suc, ◌≤◌, ◌≡◌, refl, subst, Option, some, List, [], ◌∷◌, length, get_elem?,
  All, ◌∙◌, arith, ◌++◌, Option-cases, inl, inr,
}
use pact_broker.Menu.Items.{Settings, Call, click}
use pact_broker.Menu.Store.{Menu, find, put, open_action, item_click}
use pact_broker.Menu.Store as MenuStore
use pact_broker.Menu.Store.{Store}
use pact_broker.Menu.Store.Numbers.{find-put}
use pact_broker.Menu.Store.Apart.{dispatch_lem}
use pact_broker.Menu.Parents.{init_all}
use pact_broker.Menu.Parents.Own.{new_menu, Ascend, init_all_made}
use pact_broker.Menu.Owners.{
  Screen, pair_up, owner_of, ready, Event, settings_click, entry_click, page_event, step, run,
}

get_elem?-All :
    (P : ℕ → Type 0) (keys : List ℕ) (i : ℕ) {key : ℕ}
    → All P keys
    → get_elem? keys i ≡ some key
    → P key
get_elem?-All P [] i all h = absurd (cc)
get_elem?-All P (k ∷ keys) zero {key} all h = let same : k ≡ key = cc in subst P same all.0
get_elem?-All P (k ∷ keys) (suc i) all h = get_elem?-All P keys i all.1 h

Ascend-le :
    (low high : ℕ) (keys : List ℕ) (i : ℕ) {key : ℕ}
    → Ascend low high keys
    → get_elem? keys i ≡ some key
    → low ≤ key
Ascend-le low high [] i a h = absurd (cc)
Ascend-le low high (k ∷ keys) zero a h = ground arith
Ascend-le low high (k ∷ keys) (suc i) a h = omega (arith, a.0, Ascend-le (suc k) high keys i a.1 h)

-- The menu of an element when it is made, once it is open, and once an entry of it was clicked.
abbrev pub opened_menu : List Settings → ℕ → Menu
opened_menu settings key = MenuStore.step open_action (new_menu "overlay" settings key)

abbrev pub clicked_menu : List Settings → ℕ → ℕ → Menu
clicked_menu settings key k = MenuStore.step (item_click k) (opened_menu settings key)

module _ {Owner Page PageEvent : Type 0} (call_entry : Option Call → Option Owner → Page → Page)
    (page_step : PageEvent → Page → Page) where
  owner_of-pair_up :
      (low high : ℕ) (keys : List ℕ) (owners : List Owner) (i : ℕ) {key : ℕ} {o : Owner}
      → Ascend low high keys
      → get_elem? keys i ≡ some key
      → get_elem? owners i ≡ some o
      → owner_of key (pair_up keys owners) ≡ some o
  owner_of-pair_up low high [] owners i a h k = absurd (cc)
  owner_of-pair_up low high (n ∷ keys) [] i a h k = absurd (cc)
  owner_of-pair_up low high (n ∷ keys) (r ∷ owners) zero a h k = ground arith
  owner_of-pair_up low high (n ∷ keys) (r ∷ owners) (suc i) a h k =
      let later = Ascend-le (suc n) high keys i a.1 h in
      ground (arith, owner_of-pair_up (suc n) high keys owners i a.1 h k)

  run_two :
      (d e : Event PageEvent) (x y z : Screen Owner Page)
      → step call_entry page_step d x ≡ some y
      → step call_entry page_step e y ≡ some z
      → run call_entry page_step (d ∷ e ∷ []) x ≡ some z
  unfolding run
  run_two d e x y z h k = rw (h, run, k)

  pub run_append :
      (before after : List (Event PageEvent)) (x : Screen Owner Page) {y : Screen Owner Page}
      → run call_entry page_step before x ≡ some y
      → run call_entry page_step (before ++ after) x ≡ run call_entry page_step after y
  unfolding run
  run_append [] after x {y} h = let same : x ≡ y = cc in rw same refl
  run_append (e ∷ before) after x h = elim (Option-cases (step call_entry page_step e x)) [
    | inl fails ↦ absurd (is_absent (rw (fails, run) at h))
    | inr (next, done) ↦ rw (done, run) (run_append before after next (rw (done, run) at h))
  ]

  pub run_page_event :
      (e : PageEvent) (x : Screen Owner Page)
      → run call_entry page_step (page_event e ∷ []) x
        ≡ some (record x { page = page_step e x.page })
  unfolding run step
  run_page_event e x = refl

  step-settings_click :
      (x : Screen Owner Page) (key : ℕ) {m : Menu}
      → find key x.store.menus ≡ some m
      → step call_entry page_step (settings_click key) x
        ≡ some (record x {
          store = record x.store { menus = put key (MenuStore.step open_action m) x.store.menus };
        })
  unfolding step
  step-settings_click x key h = rw (dispatch_lem key open_action x.store h, step)

  step-entry_click :
      (x : Screen Owner Page) (key k : ℕ) {m : Menu} {o : Owner}
      → find key x.store.menus ≡ some m
      → owner_of key x.owners ≡ some o
      → step call_entry page_step (entry_click key k) x
        ≡ some (record x {
          store = record x.store {
            menus = put key (MenuStore.step (item_click k) m) x.store.menus;
          };
          page = call_entry (click k m.items).1 (some o) x.page;
        })
  unfolding step
  step-entry_click x key k h r = rw (h, r, dispatch_lem key (item_click k) x.store h, step)

  run_menu :
      (settings : List Settings) (x : Screen Owner Page) (key k : ℕ) {o : Owner}
      → find key x.store.menus ≡ some (new_menu "overlay" settings key)
      → owner_of key x.owners ≡ some o
      → (after : Screen Owner Page) × (run call_entry page_step
            (settings_click key ∷ entry_click key k ∷ [])
            x
          ≡ some after)
        × (after.page ≡ call_entry (click k (opened_menu settings key).items).1 (some o) x.page)
        × (find key after.store.menus ≡ some (clicked_menu settings key k))
  run_menu settings x key k {o} h r =
      let menus = put key (opened_menu settings key) x.store.menus in
      let opened : Screen Owner Page = record x { store = record x.store { menus = menus } } in
      let there : find key menus ≡ some (opened_menu settings key) =
        find-put key key (opened_menu settings key) x.store.menus ∙ ground arith in
      (
        _,
        run_two (settings_click key) (entry_click key k) x opened _ (step-settings_click x key h)
            (step-entry_click opened key k there r),
        refl,
        find-put key key (clicked_menu settings key k) menus ∙ ground arith,
      )

  -- When the page is ready, a click on the element of an owner and then on an entry of its menu calls the
  -- function of the entry with just that owner, and the menu goes on as the two clicks alone say.
  pub ready_lem :
      (settings : List Settings) (owners : List Owner) (s : Store) (p : Page) (i k : ℕ) {key : ℕ}
      {o : Owner}
      → get_elem? (ready settings owners s p).1 i ≡ some key
      → get_elem? owners i ≡ some o
      → (after : Screen Owner Page) × (run call_entry page_step
            (settings_click key ∷ entry_click key k ∷ [])
            (ready settings owners s p).0
          ≡ some after)
        × (after.page ≡ call_entry (click k (opened_menu settings key).items).1 (some o) p)
        × (find key after.store.menus ≡ some (clicked_menu settings key k))
  unfolding ready
  ready_lem settings owners s p i k {key} {o} h r =
      let (count, ascend, all) = init_all_made "overlay" settings (length owners) s in
      let made = init_all "overlay" settings (length owners) s in
      run_menu settings (ready settings owners s p).0 key k
        (get_elem?-All (λ n. find n made.0.menus ≡ some (new_menu "overlay" settings n)) made.1 i
          all h)
        (owner_of-pair_up s.id made.0.id made.1 owners i ascend h r)
