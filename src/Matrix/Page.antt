-- ===== src/Matrix/Page.antt =====
-- The form of the matrix page as a whole: public/javascripts/matrix.js from the moment when the page is
-- ready, over changes of the selectors, to `onSubmit`.
pub mod Sent
use pact_broker.Prelude.{
  ℕ, zero, suc, String, Bool, not, Option, none, some, List, [], ◌∷◌, length, get_elem?,
}
use pact_broker.Matrix.Form.{Form, Field}
use pact_broker.Matrix.Selectors.{
  show_all, show_applicable_text_boxes, disable_fields_that_should_not_be_submitted,
}

abbrev pub set_at : ℕ → String → List String → List String
set_at i t [] = []
set_at zero t (u ∷ types) = t ∷ types
set_at (suc i) t (u ∷ types) = u ∷ set_at i t types

module _ (form : Form) where
  -- The values of the selectors, and their fields.
  pub record Page : Type 0 where
    pub types : List String
    pub fields : form.State

  unfoldable pub ready : List String → form.State → Page
  ready types s = record { types = types; fields = show_all form 0 types s }

  -- `handleSelectorizorChanged`: the selector with the number gets another value.
  unfoldable pub change : ℕ → String → Page → Page
  change i t p = elim (get_elem? p.types i) [
    | none ↦ p
    | some u ↦ record {
      types = set_at i t p.types;
      fields = show_applicable_text_boxes form i t p.fields;
    }
  ]

  unfoldable pub change_all : List (ℕ × String) → Page → Page
  unfolding change
  change_all [] p = p
  change_all ((i, t) ∷ changes) p = change_all changes (change i t p)

  unfoldable pub on_submit : Page → Page
  on_submit p = record p {
    fields = disable_fields_that_should_not_be_submitted form (length p.types) p.fields;
  }

  -- A browser sends the fields of a form that are not disabled.
  unfoldable pub is_sent : Page → ℕ → Field → Bool
  unfolding on_submit
  is_sent p i g = not (form.disabled (on_submit p).fields i g)
