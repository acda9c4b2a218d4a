-- ===== src/Menu/Parents/Opened.antt =====
-- Opening the menus of a set of parents.
use pact_broker.Prelude.{ℕ, suc, ◌<◌, ◌≡◌, refl, ap, ◌∙◌, some, List, [], ◌∷◌, length, All, arith}
use pact_broker.Menu.Store.{Menu, Store, find, put, open_action, step, dispatch}
use pact_broker.Menu.Store.Numbers.{find-put}
use pact_broker.Menu.Store.Apart.{dispatch_all, dispatch_lem}
use pact_broker.Menu.Parents.{
  Options, position_of, items_of, init_all, open_all, with_keys, material_menu,
}
use pact_broker.Menu.Parents.Own.{new_menu, Ascend, init_all_made, init_all_lem}

-- Opening the menu of a parent changes no menu of a parent with a higher number.
put_below :
    (low high : ℕ) (keys : List ℕ) (key : ℕ) (m : Menu) (menus : List (ℕ × Menu)) (f : ℕ → Menu)
    → key < low
    → Ascend low high keys
    → All (λ k. find k menus ≡ some (f k)) keys
    → All (λ k. find k (put key m menus) ≡ some (f k)) keys
put_below low high [] key m menus f h a all = tt
put_below low high (k ∷ keys) key m menus f h a all = (
  ground (arith, find-put key k m menus),
  put_below (suc k) high keys key m menus f (omega (arith, a.0)) a.1 all.1,
)

opened_first :
    (key : ℕ) (keys : List ℕ) (s : Store) {m : Menu}
    → find key s.menus ≡ some m
    → open_all (key ∷ keys) s
      ≡ open_all keys (record s { menus = put key (step open_action m) s.menus })
unfolding open_all dispatch_all
opened_first key keys s h = rw (dispatch_lem key open_action s h, dispatch_all)

open_all_made :
    (low high : ℕ) (keys : List ℕ) (s : Store) (f : ℕ → Menu)
    → Ascend low high keys
    → All (λ k. find k s.menus ≡ some (f k)) keys
    → (after : Store) × (open_all keys s ≡ some after)
      × All (λ k. find k after.menus ≡ some (step open_action (f k))) keys
      × ((other : ℕ) → other < low → find other after.menus ≡ find other s.menus)
unfolding open_all dispatch_all dispatch
open_all_made low high [] s f a all = (s, refl, tt, λ other h. refl)
open_all_made low high (key ∷ keys) s f a all =
    let next : Store = record s { menus = put key (step open_action (f key)) s.menus } in
    let below =
      put_below (suc key) high keys key (step open_action (f key)) s.menus f (omega arith) a.1
        all.1 in
    let (after, runs, opened, kept) = open_all_made (suc key) high keys next f a.1 below in
    (
      after,
      opened_first key keys s all.0 ∙ runs,
      (
        kept key (omega arith) ∙ find-put key key (step open_action (f key)) s.menus ∙ ground arith,
        opened,
      ),
      λ other h.
          kept other (omega (arith, a.0))
          ∙ ground (arith, a.0, find-put key other (step open_action (f key)) s.menus),
    )

-- Opening the menus of a set of parents, after they were made, opens every one of them, and there is no
-- error; the menus that were there before stay as they were.
pub material_menu_lem :
    (options given : Options) (old : List ℕ) (s : Store)
    → (made opened : Store) × (keys : List ℕ) × (material_menu "init" options old s
        ≡ some (made, keys))
      × (material_menu "open" given keys made ≡ some (opened, keys))
      × (length keys ≡ length old)
      × All
          (λ key.
            find key opened.menus
            ≡ some (step open_action (new_menu (position_of options) (items_of options) key)))
          keys
      × ((other : ℕ) → other < s.id → find other opened.menus ≡ find other s.menus)
unfolding material_menu with_keys
material_menu_lem options given old s =
    let made = init_all (position_of options) (items_of options) (length old) s in
    let (count, ascend, all) =
      init_all_made (position_of options) (items_of options) (length old) s in
    let (opened, runs, open_now, kept) = open_all_made s.id made.0.id made.1 made.0 _ ascend all in
    (
      made.0,
      opened,
      made.1,
      refl,
      ap (with_keys made.1) runs,
      count,
      open_now,
      λ other h.
          kept other h
          ∙ (init_all_lem (position_of options) (items_of options) (length old) s other h).3,
    )
