-- ===== src/Menu/Parents/Own.antt =====
-- Every parent gets a number and a menu of its own.
use pact_broker.Prelude.{
  ℕ, zero, suc, ◌≤◌, ◌<◌, ◌≡◌, refl, ap, ◌∙◌, false, String, some, List, [], ◌∷◌, length, All,
  arith,
}
use pact_broker.Menu.Items.{Settings, make_items}
use pact_broker.Menu.Store.{Menu, Store, find, init}
use pact_broker.Menu.Store.Numbers.{find-put, make_items-le}
use pact_broker.Menu.Parents.{init_all}

-- A menu as it is made for a parent.
abbrev pub new_menu : (position : String) → List Settings → (key : ℕ) → Menu
new_menu position settings key = record {
  items = (make_items (suc key) settings).0;
  position = position;
  open_now = false;
  fades = 0;
  watchers = 0;
}

-- Ascending numbers, from `low` on and below `high`.
abbrev pub Ascend : (low high : ℕ) → List ℕ → Type 0
Ascend low high [] = low ≤ high
Ascend low high (key ∷ keys) = (low ≤ key) × Ascend (suc key) high keys

Ascend-weaken :
    (low key high : ℕ) (keys : List ℕ) → low ≤ key → Ascend key high keys → Ascend low high keys
Ascend-weaken low key high [] h a = omega arith
Ascend-weaken low key high (k ∷ keys) h a = (omega arith, a.1)

module _ (position : String) (settings : List Settings) where
  init_kept :
      (s : Store)
      → let (next, key) = init position settings s in
        (key ≡ s.id)
        × (key < next.id)
        × (find key next.menus ≡ some (new_menu position settings key))
        × ((other : ℕ) → other < s.id → find other next.menus ≡ find other s.menus)
  unfolding init
  init_kept s =
      let menu = new_menu position settings s.id in
      (
        refl,
        make_items-le (suc s.id) settings,
        ground (arith, find-put s.id s.id menu s.menus),
        λ other h. ground (arith, find-put s.id other menu s.menus),
      )

  init_all_kept :
      (n : ℕ) (s : Store) (other : ℕ)
      → other < s.id
      → find other (init_all position settings n s).0.menus ≡ find other s.menus
  unfolding init_all
  init_all_kept zero s other h = refl
  init_all_kept (suc n) s other h =
      let (same, more, made, kept) = init_kept s in
      init_all_kept n (init position settings s).0 other (omega arith) ∙ kept other h

  pub init_all_made :
      (n : ℕ) (s : Store)
      → let (after, keys) = init_all position settings n s in
        (length keys ≡ n)
        × Ascend s.id after.id keys
        × All (λ key. find key after.menus ≡ some (new_menu position settings key)) keys
  unfolding init_all
  init_all_made zero s = (refl, omega arith, tt)
  init_all_made (suc n) s =
      let (same, more, made, kept) = init_kept s in
      let next = (init position settings s).0 in
      let key = (init position settings s).1 in
      let (count, ascend, all) = init_all_made n next in
      (
        ap suc count,
        (omega (arith, same), Ascend-weaken (suc key) next.id _ _ more ascend),
        (init_all_kept n next key more ∙ made, all),
      )

  -- The menus of so many parents, which get new and different numbers: for each a closed menu with
  -- the items of the settings, whose elements are numbered after the parent. The menus that were
  -- there stay as they were.
  pub init_all_lem :
      (n : ℕ) (s : Store) (other : ℕ)
      → other < s.id
      → let (after, keys) = init_all position settings n s in
        (length keys ≡ n)
        × Ascend s.id after.id keys
        × All (λ key. find key after.menus ≡ some (new_menu position settings key)) keys
        × (find other after.menus ≡ find other s.menus)
  init_all_lem n s other h =
      let (count, ascend, all) = init_all_made n s in
      (count, ascend, all, init_all_kept n s other h)
