-- ===== src/Matrix/Form.antt =====
-- What the matrix page takes from jQuery and the browser: fields that are shown, hidden, disabled and
-- given the focus. A field is named by the selector that it is in (`closest('.selector')`, a number)
-- and by its class.
use pact_broker.Prelude.{ℕ, Bool, true, false, ◌&&◌, ◌≡◌, refl, ◌==◌, if◌then◌else◌}

pub data Field : Type 0 where
  version branch environment tag latest_flag selectorizor : Field

abbrev pub same_field : Field → Field → Bool
same_field version version = true
same_field branch branch = true
same_field environment environment = true
same_field tag tag = true
same_field latest_flag latest_flag = true
same_field selectorizor selectorizor = true
same_field _ _ = false

abbrev pub is_same : ℕ → Field → ℕ → Field → Bool
is_same i f j g = i == j && same_field f g

-- `toggle(b)`, `prop('disabled', …)` and `focus()`, as jQuery documents them: each changes what it
-- says of its own field, and nothing else that is looked at here.
pub record Form : Type 1 where
  pub State : Type 0
  pub toggle : ℕ → Field → Bool → State → State
  pub set_disabled : ℕ → Field → Bool → State → State
  pub focus : ℕ → Field → State → State
  pub visible : State → ℕ → Field → Bool
  pub disabled : State → ℕ → Field → Bool
  pub visible-toggle :
      (i : ℕ) (f : Field) (b : Bool) (s : State) (j : ℕ) (g : Field)
      → visible (toggle i f b s) j g ≡ (if is_same i f j g then b else visible s j g)
  pub disabled-toggle :
      (i : ℕ) (f : Field) (b : Bool) (s : State) (j : ℕ) (g : Field)
      → disabled (toggle i f b s) j g ≡ disabled s j g
  pub visible-set_disabled :
      (i : ℕ) (f : Field) (b : Bool) (s : State) (j : ℕ) (g : Field)
      → visible (set_disabled i f b s) j g ≡ visible s j g
  pub disabled-set_disabled :
      (i : ℕ) (f : Field) (b : Bool) (s : State) (j : ℕ) (g : Field)
      → disabled (set_disabled i f b s) j g ≡ (if is_same i f j g then b else disabled s j g)
  pub visible-focus :
      (i : ℕ) (f : Field) (s : State) (j : ℕ) (g : Field)
      → visible (focus i f s) j g ≡ visible s j g
  pub disabled-focus :
      (i : ℕ) (f : Field) (s : State) (j : ℕ) (g : Field)
      → disabled (focus i f s) j g ≡ disabled s j g

-- A form that keeps what it is told: the documented behaviour can be met.
pub record Kept : Type 0 where
  pub shown : ℕ → Field → Bool
  pub off : ℕ → Field → Bool

abbrev pub kept_form : Form
kept_form = record {
  State = Kept;
  toggle = λ i f b s. record s { shown = λ j g. if is_same i f j g then b else s.shown j g };
  set_disabled = λ i f b s. record s { off = λ j g. if is_same i f j g then b else s.off j g };
  focus = λ i f s. s;
  visible = λ s. s.shown;
  disabled = λ s. s.off;
  visible-toggle = λ i f b s j g. refl;
  disabled-toggle = λ i f b s j g. refl;
  visible-set_disabled = λ i f b s j g. refl;
  disabled-set_disabled = λ i f b s j g. refl;
  visible-focus = λ i f s j g. refl;
  disabled-focus = λ i f s j g. refl;
}
