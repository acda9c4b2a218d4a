-- ===== src/Menu/Ready/Ids.antt =====
-- The numbers of the new elements.
use pact_broker.Prelude.{
  ℕ, suc, ◌+◌, String, List, [], ◌∷◌, ◌++◌, map, ◌≡◌, refl, ap, ap₂, ◌∙◌, length, count_up,
  count_up-append, arith,
}
use pact_broker.Menu.Store.{Store}
use pact_broker.Menu.Ready.{Entry, Bar, Toolbar, make_titles, make_icons, make_toolbars, ready}

-- How many elements are replaced.
abbrev pub size : List Bar → ℕ
size [] = 0
size (bar ∷ bars) = suc (length bar.entries + size bars)

-- The numbers of the elements, a toolbar before its items.
abbrev pub toolbar_ids : List Toolbar → List ℕ
toolbar_ids [] = []
toolbar_ids (t ∷ toolbars) = t.id ∷ (map (λ i. i.id) t.icons ++ toolbar_ids toolbars)

make_titles-ids :
    (id : ℕ) (texts : List String)
    → (map (λ t. t.id) (make_titles id texts).0 ≡ count_up id (length texts))
      × ((make_titles id texts).1 ≡ id + length texts)
unfolding make_titles
make_titles-ids id [] = (refl, omega arith)
make_titles-ids id (text ∷ texts) =
    let (ids, after) = make_titles-ids (suc id) texts in
    (ap (λ l. id ∷ l) ids, omega (arith, after))

make_icons-ids :
    (id : ℕ) (entries : List Entry)
    → (map (λ i. i.id) (make_icons id entries).0 ≡ count_up id (length entries))
      × ((make_icons id entries).1 ≡ id + length entries)
unfolding make_icons
make_icons-ids id [] = (refl, omega arith)
make_icons-ids id (e ∷ entries) =
    let (ids, after) = make_icons-ids (suc id) entries in
    (ap (λ l. id ∷ l) ids, omega (arith, after))

make_toolbars-ids :
    (id : ℕ) (bars : List Bar)
    → (toolbar_ids (make_toolbars id bars).0 ≡ count_up id (size bars))
      × ((make_toolbars id bars).1 ≡ id + size bars)
unfolding make_toolbars
make_toolbars-ids id [] = (refl, omega arith)
make_toolbars-ids id (bar ∷ bars) =
    let (icons, next) = make_icons-ids (suc id) bar.entries in
    let (rest, after) = make_toolbars-ids (make_icons (suc id) bar.entries).1 bars in
    (
      ap (λ l. id ∷ l)
          (ap₂ (λ (a b : List ℕ). a ++ b) icons (rest ∙ ap (λ n. count_up n (size bars)) next)
            ∙ count_up-append (suc id) (length bar.entries) (size bars)),
      omega (arith, next, after),
    )

-- The titles, and the toolbars each with its items, get the numbers from the next one on, without a gap
-- and none twice; the numbers that follow are free, and the menus stay as they were.
pub ready-count_up :
    (texts : List String) (bars : List Bar) (s : Store)
    → let ((titles, toolbars), after) = ready texts bars s in
      (map (λ t. t.id) titles ++ toolbar_ids toolbars ≡ count_up s.id (length texts + size bars))
      × (after.id ≡ s.id + (length texts + size bars))
      × (after.menus ≡ s.menus)
unfolding ready
ready-count_up texts bars s =
    let (titles, next) = make_titles-ids s.id texts in
    let (toolbars, after) = make_toolbars-ids (make_titles s.id texts).1 bars in
    (
      ap₂ (λ (a b : List ℕ). a ++ b) titles (toolbars ∙ ap (λ n. count_up n (size bars)) next)
          ∙ count_up-append s.id (length texts) (size bars),
      omega (arith, next, after),
      refl,
    )
