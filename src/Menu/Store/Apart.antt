-- ===== src/Menu/Store/Apart.antt =====
-- What an event for the menu of one parent does to the store.
use pact_broker.Prelude.{
  is_absent, ℕ, Option, none, some, List, [], ◌∷◌, ◌≡◌, ap, ◌∙◌, sym, ◌==◌, ==_iff, if◌then◌else◌,
  arith, refl, Bool-cases, Option-cases, inl, inr,
}
use pact_broker.Menu.Store.{Menu, Store, find, put, Event, step, dispatch, item_click, without_menu}
use pact_broker.Menu.Store.Numbers.{find-put, without_menu_same}

-- Events for the menus of parents, one after the other, up to an error.
unfoldable pub dispatch_all : List (ℕ × Event) → Store → Option Store
dispatch_all [] s = some s
dispatch_all ((key, e) ∷ events) s = elim (dispatch key e s) [
  | none ↦ none
  | some next ↦ dispatch_all events next
]

pub dispatch_lem :
    (key : ℕ) (e : Event) (s : Store) {m : Menu}
    → find key s.menus ≡ some m
    → dispatch key e s ≡ some (record s { menus = put key (step e m) s.menus })
unfolding dispatch
dispatch_lem key e s h = rw (h, dispatch)

-- A click on an item is never an error, with or without a menu.
pub dispatch_click :
    (key k : ℕ) (s : Store) → (next : Store) × (dispatch key (item_click k) s ≡ some next)
unfolding dispatch without_menu
dispatch_click key k s = elim (Option-cases (find key s.menus)) [
  | inl missing ↦ (s, rw (missing, dispatch) refl)
  | inr (m, found) ↦ (_, dispatch_lem key (item_click k) s found)
]

pub find-dispatch :
    (key k : ℕ) (e : Event) (s : Store) {m : Menu} {next : Store}
    → find key s.menus ≡ some m
    → dispatch k e s ≡ some next
    → find key next.menus ≡ some (if k == key then step e m else m)
unfolding dispatch
find-dispatch key k e s {m} {next} found h = elim (Option-cases (find k s.menus)) [
  | inl missing ↦
      let same : next ≡ s = without_menu_same e s (rw (missing, dispatch) at h) in
      elim (Bool-cases (k == key)) [
        | inl here ↦
            absurd
              (is_absent (sym missing ∙ ap (λ n. find n s.menus) ((==_iff k key).0 here) ∙ found))
        | inr other ↦ rw (other, same) found
      ]
  | inr (n, there) ↦
      ground
        (arith, find-put key k (step e n) s.menus, find-put k key (step e n) s.menus, ==_iff k key)
]
