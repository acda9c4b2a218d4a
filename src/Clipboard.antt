-- ===== src/Clipboard.antt =====
-- public/javascripts/clipboard.js: copying a text, and the button that does it. The document is an
-- interface, in Clipboard/Dom.antt.
pub mod Dom
pub mod Copied
pub mod Targets
use pact_broker.Prelude.{
  ℕ, zero, suc, ◌-◌, String, Bool, true, false, not, Option, none, some, List, [], ◌∷◌, ◌==◌,
  if◌then◌else◌,
}
use pact_broker.Js.{Value, holds}
use pact_broker.Js
use pact_broker.Clipboard.Dom.{Document, View}

-- `getRangeAt(0)`, if there is a range.
abbrev pub first_range : {A : Type 0} → List A → Option A
first_range [] = none
first_range (r ∷ rest) = some r

module _ (d : Document) where
  open d use {
    State, Range, view, create_area, set_value, set_attribute, set_style, append_child,
    remove_child, select, exec_copy, remove_all_ranges, add_range,
  }

  -- The text area out of sight.
  unfoldable pub add_area : String → State → State × ℕ
  add_area text s =
      let (made, el) = create_area s in
      let filled = set_attribute el "readonly" "" (set_value el text made) in
      let away = set_style el "left" "-9999px" (set_style el "position" "absolute" filled) in
      (append_child el away, el)

  unfoldable pub restore : Option Range → State → State
  restore none s = s
  restore (some r) s = add_range r (remove_all_ranges s)

  unfoldable pub copy_to_clipboard : String → State → State
  unfolding restore
  copy_to_clipboard text s =
      let (shown, el) = add_area text s in
      let selected = first_range (view shown).ranges in
      restore selected (remove_child el (exec_copy (select el shown)))

-- A button: whether it has the class "invisible", the class of its icon, and the timers that run.
pub record Clippy : Type 0 where
  pub invisible : Bool
  pub icon : String
  pub timers : ℕ

-- The mouse comes or goes, a click, and the end of a timer.
pub data Event : Type 0 where
  hover : Event
  click : Event
  timeout : Event

unfoldable pub flash_clipped : Clippy → Clippy
flash_clipped c = record c { icon = "copy-success-icon"; timers = suc c.timers }

unfoldable pub step : Event → Clippy → Clippy
unfolding flash_clipped
step hover c = record c { invisible = not c.invisible }
step click c = flash_clipped c
step timeout c = if c.timers == 0 then c else record c { icon = "copy-icon"; timers = c.timers - 1 }

unfoldable pub run : List Event → Clippy → Clippy
run [] c = c
run (e ∷ events) c = run events (step e c)

-- What a click copies: the data "clippable" of the element, if it counts as true, and else its text;
-- `trim` is jQuery's.
unfoldable pub text_to_copy :
    (trim : Value → String) → (clippable : Value) → (own_text : String) → String
text_to_copy trim clippable own_text =
    trim (if holds clippable then clippable else Js.text own_text)
