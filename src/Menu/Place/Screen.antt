-- ===== src/Menu/Place/Screen.antt =====
-- Where the menu ends on the screen.
use pact_broker.Prelude.{ℕ, ◌+◌, ◌*◌, ◌≤◌, ◌≡◌, refl, ◌⊎◌, inl, inr, arith, Bool-cases}
use pact_broker.Prelude.Int.{
  ℤ, pos, sub_ℕ, ltb_ℤ, ◌+ℤ◌, ◌-ℤ◌, ◌≤ℤ◌, int_laws, pos_part, neg_part, not-ltb_ℤ→le,
}
use pact_broker.Menu.Place.{Layout, Position, update_pos, corrected, limited, minus, doubled}

-- The lower edge of a menu.
abbrev pub bottom : Position → ℤ
bottom p = p.top +ℤ p.outer_height

sub_ℕ_parts : (a b : ℕ) → pos_part (sub_ℕ a b) + b ≡ neg_part (sub_ℕ a b) + a
sub_ℕ_parts a b = ground arith

-- What is left below a menu of height `h` at `top`, five pixels off the window's edge.
abbrev room : (w h top : ℕ) → ℤ
room w h top = sub_ℕ (w * 4) h -ℤ pos top -ℤ pos 20

room_parts :
    (w h top : ℕ) → pos_part (room w h top) + h + top + 20 ≡ neg_part (room w h top) + w * 4
room_parts w h top = omega (int_laws, sub_ℕ_parts (w * 4) h)

abbrev Fits : Layout → ℤ → Type 0
Fits l edge =
    (edge ≤ℤ pos (l.window_height * 4) -ℤ pos 20) ⊎ (edge ≤ℤ pos (l.parent_top + l.parent_height))

corrected-Fits :
    (l : Layout) (h top : ℕ)
    → top ≡ l.parent_top + l.parent_height
    → let (top', outer) = corrected l h (pos top) (room l.window_height h top) in
      Fits l (top' +ℤ outer)
unfolding corrected
corrected-Fits l h top e =
    let r = room l.window_height h top in
    let parts = room_parts l.window_height h top in
    elim (Bool-cases (ltb_ℤ r (pos 0))) [
      | inr fits ↦ rw fits (inl (omega (int_laws, parts, not-ltb_ℤ→le r (pos 0) fits)))
      | inl low ↦ elim (Bool-cases (ltb_ℤ (minus h) (doubled r))) [
        | inl shrunk ↦ elim (Bool-cases l.overlay) [
          | inl over ↦ rw (low, shrunk, over) (inl (omega (int_laws, parts)))
          | inr under ↦ rw (low, shrunk, under) (inl (omega (int_laws, parts)))
        ]
        | inr above ↦ elim (Bool-cases l.overlay) [
          | inl over ↦ rw (low, above, over) (inr (omega int_laws))
          | inr under ↦ rw (low, above, under) (inr (omega int_laws))
        ]
      ]
    ]

-- A menu ends at least five pixels above the lower edge of the window, or no lower than its parent
-- does.
pub bottom-update_pos :
    (l : Layout)
    → (bottom (update_pos l) ≤ℤ pos (l.window_height * 4) -ℤ pos 20)
      ⊎ (bottom (update_pos l) ≤ℤ pos (l.parent_top + l.parent_height))
unfolding update_pos
bottom-update_pos l = corrected-Fits l (limited l) (l.parent_top + l.parent_height) refl

right_of_window :
    (w m l : ℕ)
    → pos_part (sub_ℕ (w * 4) m -ℤ pos l -ℤ pos 20) + m + l + 20
      ≡ neg_part (sub_ℕ (w * 4) m -ℤ pos l -ℤ pos 20) + w * 4
right_of_window w m l = omega (int_laws, sub_ℕ_parts (w * 4) m)

-- The right edge of a menu.
abbrev pub right : Layout → ℤ
right l = (update_pos l).left +ℤ pos l.menu_width

right-update_pos :
    (l : Layout)
    → (right l ≤ℤ pos (l.window_width * 4) -ℤ pos 20)
      ⊎ (right l ≤ℤ pos (l.parent_left + l.parent_width))
unfolding update_pos
right-update_pos l =
    let distance = sub_ℕ (l.window_width * 4) l.menu_width -ℤ pos l.parent_left -ℤ pos 20 in
    let parts = right_of_window l.window_width l.menu_width l.parent_left in
    elim (Bool-cases (ltb_ℤ distance (pos 0))) [
      | inl over ↦ rw over (inr (omega (int_laws, sub_ℕ_parts l.menu_width l.parent_width)))
      | inr fits ↦ rw fits (inl (omega (int_laws, parts, not-ltb_ℤ→le distance (pos 0) fits)))
    ]

-- A menu ends at least five pixels above the lower edge of the window, or no lower than its parent does;
-- and at least five pixels left of the right edge of the window, or no further right than its
-- parent does.
pub update_pos_lem :
    (l : Layout)
    → ((bottom (update_pos l) ≤ℤ pos (l.window_height * 4) -ℤ pos 20)
        ⊎ (bottom (update_pos l) ≤ℤ pos (l.parent_top + l.parent_height)))
      × ((right l ≤ℤ pos (l.window_width * 4) -ℤ pos 20)
          ⊎ (right l ≤ℤ pos (l.parent_left + l.parent_width)))
update_pos_lem l = (bottom-update_pos l, right-update_pos l)

-- However many items it has, a menu that is not cut at its lower edge is no higher than three quarters
-- of the window and its frame.
pub limited-le : (l : Layout) → limited l ≤ l.window_height * 3 + l.frame
limited-le l = ground arith
