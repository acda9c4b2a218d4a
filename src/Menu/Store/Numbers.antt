-- ===== src/Menu/Store/Numbers.antt =====
-- Every parent has a number of its own, and so a menu of its own.
use pact_broker.Prelude.{
  ℕ, suc, ◌≤◌, ◌<◌, ◌≡◌, ◌≢◌, refl, ap, false, String, none, some, List, [], ◌∷◌, arith, All,
  if◌then◌else◌, ◌==◌, Option-cases, inl, inr,
}
use pact_broker.Menu.Items.{Settings, Item, make_item, make_items}
use pact_broker.Menu.Store.{
  Menu, Store, find, put, init, Event, step, dispatch, without_menu, open_action,
}

pub make_items-le : (id : ℕ) (settings : List Settings) → id ≤ (make_items id settings).1
unfolding make_items
make_items-le id [] = omega arith
make_items-le id (s ∷ rest) = ground (arith, make_items-le id rest, make_items-le (suc id) rest)

-- All elements of the items have numbers of their own, from `low` on and below `high`.
abbrev pub NumberedIn : ℕ → ℕ → List Item → Type 0
NumberedIn low high [] = low ≤ high
NumberedIn low high (item ∷ items) = (low ≤ item.element) × NumberedIn (suc item.element) high items

element-make_item :
    (id : ℕ) (s : Settings) {item : Item} → make_item id s ≡ some item → item.element ≡ id
unfolding make_item
element-make_item id s h = ground arith

make_items-NumberedIn :
    (id : ℕ) (settings : List Settings)
    → NumberedIn id (make_items id settings).1 (make_items id settings).0
unfolding make_items
make_items-NumberedIn id [] = omega arith
make_items-NumberedIn id (s ∷ rest) = elim (Option-cases (make_item id s)) [
  | inl skipped ↦ rw (skipped, make_items) (make_items-NumberedIn id rest)
  | inr (item, made) ↦
      let e = element-make_item id s made in
      rw (made, make_items, e) (omega arith, make_items-NumberedIn (suc id) rest)
]

-- The numbers under which menus are kept are numbers that were given out.
abbrev pub IsNumbered : Store → Type 0
IsNumbered s = All (λ entry. entry.0 < s.id) s.menus

find_unused :
    (key : ℕ) (menus : List (ℕ × Menu)) → All (λ entry. entry.0 < key) menus → find key menus ≡ none
unfolding find
find_unused key [] h = refl
find_unused key ((k, m) ∷ rest) h = ground (arith, find_unused key rest h.1)

pub find-put :
    (key other : ℕ) (menu : Menu) (menus : List (ℕ × Menu))
    → find other (put key menu menus) ≡ (if key == other then some menu else find other menus)
unfolding find put
find-put key other menu [] = refl
find-put key other menu ((k, m) ∷ rest) = ground (arith, find-put key other menu rest)

put-All :
    (bound key : ℕ) (menu : Menu) (menus : List (ℕ × Menu))
    → key < bound
    → All (λ entry. entry.0 < bound) menus
    → All (λ entry. entry.0 < bound) (put key menu menus)
unfolding put
put-All bound key menu [] h all = (h, tt)
put-All bound key menu ((k, m) ∷ rest) h all = ground (arith, put-All bound key menu rest h all.1)

All-weaken :
    (low high : ℕ) (menus : List (ℕ × Menu))
    → low ≤ high
    → All (λ entry. entry.0 < low) menus
    → All (λ entry. entry.0 < high) menus
All-weaken low high [] h all = tt
All-weaken low high ((k, m) ∷ rest) h all = (omega arith, All-weaken low high rest h all.1)

-- Where all numbers of menus are numbers that were given out, a new parent gets a number that no menu
-- has, and a closed menu whose elements have new numbers of their own; the menu of every other parent
-- stays as it was, and all numbers are again numbers that were given out.
pub init_lem :
    (position : String) (settings : List Settings) (s : Store) (other : ℕ)
    → IsNumbered s
    → other ≢ (init position settings s).1
    → let (after, key) = init position settings s in
      (find key s.menus ≡ none)
      × ((m : Menu) × (find key after.menus ≡ some m)
          × (m.open_now ≡ false)
          × NumberedIn (suc key) after.id m.items)
      × (find other after.menus ≡ find other s.menus)
      × IsNumbered after
unfolding init
init_lem position settings s other h ne =
    let made = make_items (suc s.id) settings in
    let menu : Menu = record {
      items = made.0;
      position = position;
      open_now = false;
      fades = 0;
      watchers = 0;
    } in
    let grown = make_items-le (suc s.id) settings in
    (
      find_unused s.id s.menus h,
      (
        menu,
        ground (arith, find-put s.id s.id menu s.menus),
        refl,
        make_items-NumberedIn (suc s.id) settings,
      ),
      ground (arith, find-put s.id other menu s.menus),
      put-All made.1 s.id menu s.menus grown (All-weaken s.id made.1 s.menus (omega arith) h),
    )

pub without_menu_same :
    (e : Event) (s : Store) {after : Store} → without_menu e s ≡ some after → after ≡ s
unfolding without_menu
without_menu_same open_action s h = cc
without_menu_same _ s h = cc

-- An event for one menu changes no other.
pub dispatch_frame :
    (key other : ℕ) (e : Event) (s : Store) {after : Store}
    → other ≢ key
    → dispatch key e s ≡ some after
    → find other after.menus ≡ find other s.menus
unfolding dispatch
dispatch_frame key other e s {after} ne h = elim (Option-cases (find key s.menus)) [
  | inl missing ↦ ap (λ t. find other t.menus) (without_menu_same e s (rw (missing, dispatch) at h))
  | inr (m, found) ↦ ground (arith, find-put key other (step e m) s.menus)
]
