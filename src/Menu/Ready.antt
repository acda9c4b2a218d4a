-- ===== src/Menu/Ready.antt =====
-- What public/javascripts/material-menu.js does when the page is ready: titles and toolbars, with their
-- items, are replaced by elements with numbers of their own.
pub mod Ids
use pact_broker.Prelude.{
  ℕ, suc, String, Bool, true, false, Option, none, some, List, [], ◌∷◌, if◌then◌else◌,
}
use pact_broker.Menu.Store.{Store}

-- An `sm-item`: its text, and which of the attributes "left" and "right" it has.
pub record Entry : Type 0 where
  pub text : String
  pub has_left : Bool
  pub has_right : Bool

-- An `sm-toolbar`: its inner HTML and the items in it.
pub record Bar : Type 0 where
  pub html : String
  pub entries : List Entry

-- The classes "sm-left" and "sm-right".
pub data Side : Type 0 where
  left_side right_side : Side

-- The new elements.
pub record Title : Type 0 where
  pub text : String
  pub id : ℕ

pub record Icon : Type 0 where
  pub text : String
  pub id : ℕ
  pub side : Option Side

pub record Toolbar : Type 0 where
  pub html : String
  pub id : ℕ
  pub icons : List Icon

abbrev pub side_of : Entry → Option Side
side_of e = if e.has_left then some left_side else if e.has_right then some right_side else none

unfoldable pub make_titles : ℕ → List String → List Title × ℕ
make_titles id [] = ([], id)
make_titles id (text ∷ texts) =
    let (made, after) = make_titles (suc id) texts in
    (record { text = text; id = id } ∷ made, after)

unfoldable pub make_icons : ℕ → List Entry → List Icon × ℕ
make_icons id [] = ([], id)
make_icons id (e ∷ entries) =
    let (made, after) = make_icons (suc id) entries in
    (record { text = e.text; id = id; side = side_of e } ∷ made, after)

-- The toolbar gets its number before its items get theirs.
unfoldable pub make_toolbars : ℕ → List Bar → List Toolbar × ℕ
unfolding make_icons
make_toolbars id [] = ([], id)
make_toolbars id (bar ∷ bars) =
    let (icons, next) = make_icons (suc id) bar.entries in
    let (made, after) = make_toolbars next bars in
    (record { html = bar.html; id = id; icons = icons } ∷ made, after)

-- The new elements of the page, and the store with the next number.
unfoldable pub ready : List String → List Bar → Store → (List Title × List Toolbar) × Store
unfolding make_titles make_toolbars
ready texts bars s =
    let (titles, next) = make_titles s.id texts in
    let (toolbars, after) = make_toolbars next bars in ((titles, toolbars), record s { id = after })
