-- ===== src/Menu/Owners.antt =====
-- A page on which elements open a menu of public/javascripts/material-menu.js, as on the pages of
-- public/javascripts/index.js and public/javascripts/pact.js: each element stands for an owner (a row of a
-- table, the data of a pact), to which the entries of its menu apply.
pub mod Chosen
pub mod Moved
pub mod Projected
use pact_broker.Prelude.{ℕ, String, Option, none, some, List, [], ◌∷◌, length, ◌==◌, if◌then◌else◌}
use pact_broker.Menu.Items.{Settings, Call, click}
use pact_broker.Menu.Store.{Menu, Store, find, dispatch, open_action, item_click}
use pact_broker.Menu.Store as MenuStore
use pact_broker.Menu.Parents.{init_all}

-- The menus, the rest of the page, and the owners by the numbers of their elements.
pub record Screen (Owner Page : Type 0) : Type 0 where
  pub store : Store
  pub page : Page
  pub owners : List (ℕ × Owner)

abbrev pub pair_up : {Owner : Type 0} → List ℕ → List Owner → List (ℕ × Owner)
pair_up [] owners = []
pair_up (key ∷ keys) [] = []
pair_up (key ∷ keys) (o ∷ owners) = (key, o) ∷ pair_up keys owners

abbrev pub owner_of : {Owner : Type 0} → ℕ → List (ℕ × Owner) → Option Owner
owner_of key [] = none
owner_of key ((k, o) ∷ owners) = if k == key then some o else owner_of key owners

-- The element of every owner gets its menu. What is returned with the page are the numbers of the elements,
-- in the order of their owners.
unfoldable pub ready :
    {Owner Page : Type 0} → List Settings → List Owner → Store → Page → Screen Owner Page × List ℕ
unfolding init_all
ready settings owners s p =
    let (after, keys) = init_all "overlay" settings (length owners) s in
    (record { store = after; page = p; owners = pair_up keys owners }, keys)

-- A click on an element, a click on an entry of its menu, another event of a menu, and what happens to the
-- rest of the page.
pub data Event (PageEvent : Type 0) : Type 0 where
  settings_click : ℕ → Event PageEvent
  entry_click : ℕ → ℕ → Event PageEvent
  menu_event : ℕ → MenuStore.Event → Event PageEvent
  page_event : PageEvent → Event PageEvent

pub with_store :
    {Owner Page : Type 0} → Option Store → Screen Owner Page → Option (Screen Owner Page)
with_store none x = none
with_store (some s) x = some (record x { store = s })

abbrev pub call_of : ℕ → Option Menu → Option Call
call_of k none = none
call_of k (some m) = (click k m.items).1

-- `call_entry` is what an entry of the menu does with the owner, `page_step` what happens to the page.
module _ {Owner Page PageEvent : Type 0} (call_entry : Option Call → Option Owner → Page → Page)
    (page_step : PageEvent → Page → Page) where
  -- `none` is an error of type. The entry's own function is called before the menu is closed.
  unfoldable pub step : Event PageEvent → Screen Owner Page → Option (Screen Owner Page)
  unfolding with_store
  step (settings_click key) x = with_store (dispatch key open_action x.store) x
  step (entry_click key k) x =
      let called = call_of k (find key x.store.menus) in
      with_store (dispatch key (item_click k) x.store)
        (record x { page = call_entry called (owner_of key x.owners) x.page })
  step (menu_event key e) x = with_store (dispatch key e x.store) x
  step (page_event e) x = some (record x { page = page_step e x.page })

  unfoldable pub run : List (Event PageEvent) → Screen Owner Page → Option (Screen Owner Page)
  unfolding step
  run [] x = some x
  run (e ∷ events) x = elim (step e x) [ none ↦ none | some next ↦ run events next ]
