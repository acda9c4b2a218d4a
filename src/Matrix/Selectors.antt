-- ===== src/Matrix/Selectors.antt =====
-- The selectors of the matrix form: which fields the chosen type of a selector shows, as
-- `showApplicableTextBoxes` of public/javascripts/matrix.js decides it.
pub mod Types
pub mod Shown
use pact_broker.Prelude.{
  ℕ, zero, suc, String, Bool, true, false, not, ◌||◌, Option, none, some, List, [], ◌∷◌, str_eq,
  if◌then◌else◌,
}
use pact_broker.Matrix.Form.{
  Form, Field, version, branch, environment, tag, latest_flag, selectorizor,
}

-- The chain of tests on the type of a selector: the field that is shown, if any.
unfoldable pub applicable : String → Option Field
applicable type =
    if str_eq type "specify-version"
    then some version
    else if str_eq type "specify-latest-tag" || str_eq type "specify-all-tagged"
    then some tag
    else if str_eq type "specify-latest-branch"
    then some branch
    else if str_eq type "specify-all-branch"
    then some branch
    else if str_eq type "specify-environment"
    then some environment
    else none

abbrev pub asks_latest : String → Bool
asks_latest type =
    str_eq type "specify-latest"
    || str_eq type "specify-latest-tag"
    || str_eq type "specify-latest-branch"

module _ (form : Form) where
  open form use {State, toggle, set_disabled, focus}

  unfoldable pub set_textbox_visibility : ℕ → Field → Bool → State → State
  set_textbox_visibility i f visibility s =
      let toggled = toggle i f visibility s in
      if visibility
      then focus i f (set_disabled i f false toggled)
      else set_disabled i f true toggled

  unfoldable pub toggle_latest_flag : ℕ → Bool → State → State
  toggle_latest_flag i enabled s = set_disabled i latest_flag (not enabled) s

  abbrev pub show_field : ℕ → Option Field → State → State
  show_field i none s = s
  show_field i (some f) s = set_textbox_visibility i f true s

  unfoldable pub show_applicable_text_boxes : ℕ → (type : String) → State → State
  unfolding applicable set_textbox_visibility toggle_latest_flag
  show_applicable_text_boxes i type s =
      let hidden = set_textbox_visibility i tag false (
        set_textbox_visibility i environment false
          (set_textbox_visibility i branch false (set_textbox_visibility i version false s))) in
      toggle_latest_flag i (asks_latest type) (show_field i (applicable type) hidden)

  -- `$(document).ready`: every selector, from number `i` on, with the type that it has.
  unfoldable pub show_all : ℕ → (types : List String) → State → State
  unfolding show_applicable_text_boxes
  show_all i [] s = s
  show_all i (type ∷ types) s = show_all (suc i) types (show_applicable_text_boxes i type s)

  -- `onSubmit`: the selectors themselves, as many as there are, are not sent.
  unfoldable pub disable_fields_that_should_not_be_submitted : (count : ℕ) → State → State
  disable_fields_that_should_not_be_submitted zero s = s
  disable_fields_that_should_not_be_submitted (suc n) s =
      disable_fields_that_should_not_be_submitted n (set_disabled n selectorizor true s)
