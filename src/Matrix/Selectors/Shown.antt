-- ===== src/Matrix/Selectors/Shown.antt =====
-- Which fields are shown and sent after a selector has changed.
use pact_broker.Prelude.{
  ℕ, String, Bool, true, false, not, ◌&&◌, Option, none, some, ◌≡◌, refl, ◌==◌, if◌then◌else◌,
  arith,
}
use pact_broker.Matrix.Form.{
  Form, Field, version, branch, environment, tag, latest_flag, selectorizor, is_same, same_field,
}
use pact_broker.Matrix.Selectors.Types.{applies, is_field, is_field-applicable}
use pact_broker.Matrix.Selectors.{
  asks_latest, set_textbox_visibility, toggle_latest_flag, show_field, show_applicable_text_boxes,
}

abbrev pub is_textbox : Field → Bool
is_textbox latest_flag = false
is_textbox selectorizor = false
is_textbox _ = true

four : (b : Bool) (w x : Bool) (g : Field) → Bool
four b w x g =
    if b && same_field tag g
    then w
    else if b && same_field environment g
    then w
    else if b && same_field branch g
    then w
    else if b && same_field version g
    then w
    else x

four_lem : (b w x : Bool) (g : Field) → four b w x g ≡ (if b && is_textbox g then w else x)
unfolding four
four_lem false w x g = refl
four_lem true w x version = refl
four_lem true w x branch = refl
four_lem true w x environment = refl
four_lem true w x tag = refl
four_lem true w x latest_flag = refl
four_lem true w x selectorizor = refl

shown_lem :
    (b : Bool) (t : String) (x : Bool) (g : Field)
    → (if b && applies t g then true else if b && is_textbox g then false else x)
      ≡ (if b && is_textbox g then applies t g else x)
shown_lem false t x g = refl
shown_lem true t x version = ground arith
shown_lem true t x branch = ground arith
shown_lem true t x environment = ground arith
shown_lem true t x tag = ground arith
shown_lem true t x latest_flag = refl
shown_lem true t x selectorizor = refl

sent_lem :
    (b : Bool) (t : String) (w x : Bool) (g : Field)
    → (if b && same_field latest_flag g
        then w
        else if b && applies t g
        then false
        else if b && is_textbox g
        then true
        else x)
      ≡ (if b && is_textbox g
          then not (applies t g)
          else if b && same_field latest_flag g
          then w
          else x)
sent_lem false t w x g = refl
sent_lem true t w x version = ground arith
sent_lem true t w x branch = ground arith
sent_lem true t w x environment = ground arith
sent_lem true t w x tag = ground arith
sent_lem true t w x latest_flag = refl
sent_lem true t w x selectorizor = refl

module _ (form : Form) where
  open form use {
    State, visible, disabled, visible-toggle, disabled-toggle, visible-set_disabled,
    disabled-set_disabled, visible-focus, disabled-focus,
  }

  visible-set_textbox_visibility :
      (i : ℕ) (f : Field) (b : Bool) (s : State) (j : ℕ) (g : Field)
      → visible (set_textbox_visibility form i f b s) j g
        ≡ (if is_same i f j g then b else visible s j g)
  unfolding set_textbox_visibility
  visible-set_textbox_visibility i f true s j g =
      simp (visible-focus, visible-set_disabled, visible-toggle)
  visible-set_textbox_visibility i f false s j g = simp (visible-set_disabled, visible-toggle)

  disabled-set_textbox_visibility :
      (i : ℕ) (f : Field) (b : Bool) (s : State) (j : ℕ) (g : Field)
      → disabled (set_textbox_visibility form i f b s) j g
        ≡ (if is_same i f j g then not b else disabled s j g)
  unfolding set_textbox_visibility
  disabled-set_textbox_visibility i f true s j g =
      simp (disabled-focus, disabled-set_disabled, disabled-toggle)
  disabled-set_textbox_visibility i f false s j g = simp (disabled-set_disabled, disabled-toggle)

  abbrev hidden : ℕ → State → State
  hidden i s = set_textbox_visibility form i tag false (
      set_textbox_visibility form i environment false (
        set_textbox_visibility form i branch false (set_textbox_visibility form i version false s)))

  visible-hidden :
      (i : ℕ) (s : State) (j : ℕ) (g : Field)
      → visible (hidden i s) j g ≡ (if i == j && is_textbox g then false else visible s j g)
  unfolding four
  visible-hidden i s j g =
      rw
        (
          visible-set_textbox_visibility, visible-set_textbox_visibility,
          visible-set_textbox_visibility, visible-set_textbox_visibility,
        )
        (four_lem (i == j) false (visible s j g) g)

  disabled-hidden :
      (i : ℕ) (s : State) (j : ℕ) (g : Field)
      → disabled (hidden i s) j g ≡ (if i == j && is_textbox g then true else disabled s j g)
  unfolding four
  disabled-hidden i s j g =
      rw
        (
          disabled-set_textbox_visibility, disabled-set_textbox_visibility,
          disabled-set_textbox_visibility, disabled-set_textbox_visibility,
        )
        (four_lem (i == j) true (disabled s j g) g)

  visible-show_field :
      (i : ℕ) (o : Option Field) (s : State) (j : ℕ) (g : Field)
      → visible (show_field form i o s) j g
        ≡ (if i == j && is_field o g then true else visible s j g)
  visible-show_field i none s j g = ground arith
  visible-show_field i (some f) s j g = visible-set_textbox_visibility i f true s j g

  disabled-show_field :
      (i : ℕ) (o : Option Field) (s : State) (j : ℕ) (g : Field)
      → disabled (show_field form i o s) j g
        ≡ (if i == j && is_field o g then false else disabled s j g)
  disabled-show_field i none s j g = ground arith
  disabled-show_field i (some f) s j g = disabled-set_textbox_visibility i f true s j g

  -- After `showApplicableTextBoxes` a text box of the selector is shown just when the type asks for it,
  -- and every other field is shown as before.
  pub visible-show_applicable_text_boxes :
      (i : ℕ) (type : String) (s : State) (j : ℕ) (g : Field)
      → visible (show_applicable_text_boxes form i type s) j g
        ≡ (if i == j && is_textbox g then applies type g else visible s j g)
  unfolding show_applicable_text_boxes toggle_latest_flag
  visible-show_applicable_text_boxes i type s j g =
      rw (visible-set_disabled, visible-show_field, visible-hidden, is_field-applicable)
        (shown_lem (i == j) type (visible s j g) g)

  -- After `showApplicableTextBoxes` a text box of the selector is enabled just when the type asks
  -- for it, the flag for the latest version just when the type asks for the latest, and every
  -- other field as before.
  pub disabled-show_applicable_text_boxes :
      (i : ℕ) (type : String) (s : State) (j : ℕ) (g : Field)
      → disabled (show_applicable_text_boxes form i type s) j g ≡ (
          if i == j && is_textbox g
          then not (applies type g)
          else if i == j && same_field latest_flag g
          then not (asks_latest type)
          else disabled s j g)
  unfolding show_applicable_text_boxes toggle_latest_flag
  disabled-show_applicable_text_boxes i type s j g =
      rw (disabled-set_disabled, disabled-show_field, disabled-hidden, is_field-applicable)
        (sent_lem (i == j) type (not (asks_latest type)) (disabled s j g) g)
