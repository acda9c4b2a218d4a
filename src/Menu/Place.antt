-- ===== src/Menu/Place.antt =====
-- `updatePos` of public/javascripts/material-menu.js. Lengths are in quarters of a pixel, so that
-- three quarters of a window of whole pixels is a whole number; half a menu is compared doubled.
pub mod Screen
use pact_broker.Prelude.{ℕ, suc, ◌+◌, ◌-◌, ◌*◌, Bool, true, false, not, ltb, if◌then◌else◌}
use pact_broker.Prelude.Int.{ℤ, pos, negsuc, sub_ℕ, ltb_ℤ, ◌+ℤ◌, ◌-ℤ◌}

-- What is measured: the parent's offset and outer size, the window in pixels, and of the menu its
-- outer size at height "auto" and what the outer height has over the height (padding and border).
pub record Layout : Type 0 where
  pub parent_top : ℕ
  pub parent_left : ℕ
  pub parent_height : ℕ
  pub parent_width : ℕ
  pub window_height : ℕ
  pub window_width : ℕ
  pub natural_height : ℕ
  pub menu_width : ℕ
  pub frame : ℕ
  pub overlay : Bool

-- The place that is set, and the outer height that the menu then has.
pub record Position : Type 0 where
  pub top : ℤ
  pub left : ℤ
  pub outer_height : ℤ

-- The outer height after the menu was cut to three quarters of the window.
abbrev pub limited : Layout → ℕ
limited l =
    if ltb (l.window_height * 3) l.natural_height
    then l.window_height * 3 + l.frame
    else l.natural_height

-- `-x`.
abbrev pub minus : ℕ → ℤ
minus n = sub_ℕ 0 n

abbrev pub doubled : ℤ → ℤ
doubled z = z +ℤ z

-- The two corrections of a menu that would end below the window: a lower menu, or one above. The height
-- is what the source asks for; that of the content, which the browser keeps from falling below 0, is not
-- corrected again.
corrected : Layout → (menu_height : ℕ) → (top distance : ℤ) → ℤ × ℤ
corrected l menu_height top distance =
    if ltb_ℤ distance (pos 0)
    then (if ltb_ℤ (minus menu_height) (doubled distance)
        then (if l.overlay then top -ℤ pos l.parent_height else top, pos menu_height +ℤ distance)
        else (
          if l.overlay
              then top -ℤ pos menu_height
              else top -ℤ pos menu_height -ℤ pos l.parent_height,
          pos menu_height,
        ))
    else (top, pos menu_height)

abbrev pub left_of : Layout → ℤ
left_of l =
    let distance = sub_ℕ (l.window_width * 4) l.menu_width -ℤ pos l.parent_left -ℤ pos 20 in
    if ltb_ℤ distance (pos 0)
    then pos l.parent_left -ℤ sub_ℕ l.menu_width l.parent_width
    else pos l.parent_left

unfoldable pub update_pos : Layout → Position
unfolding corrected
update_pos l =
    let menu_height = limited l in
    let top = pos (l.parent_top + l.parent_height) in
    let distance = sub_ℕ (l.window_height * 4) menu_height -ℤ top -ℤ pos 20 in
    let (top', outer) = corrected l menu_height top distance in
    record { top = top'; left = left_of l; outer_height = outer }
