-- ===== src/Clipboard/Targets.antt =====
-- `initializeClipper` of public/javascripts/clipboard.js: all the elements of the page that can be copied,
-- each with its button.
pub mod Last
use pact_broker.Prelude.{ℕ, zero, suc, String, Option, none, some, List, [], ◌∷◌, get_elem?}
use pact_broker.Js.{Value}
use pact_broker.Clipboard.Dom.{Document}
use pact_broker.Clipboard.{
  copy_to_clipboard, text_to_copy, Clippy, Event, hover, click, timeout, step,
}

-- An element: its data "clippable", and its text.
pub record Target : Type 0 where
  pub clippable : Value
  pub own_text : String

abbrev pub update_at : {A : Type 0} → ℕ → (A → A) → List A → List A
update_at i f [] = []
update_at zero f (x ∷ xs) = f x ∷ xs
update_at (suc i) f (x ∷ xs) = x ∷ update_at i f xs

module _ (d : Document) (trim : Value → String) (targets : List Target) where
  -- The document, and the buttons of the elements.
  pub record Page : Type 0 where
    pub document : d.State
    pub buttons : List Clippy

  copy_target : Option Target → d.State → d.State
  copy_target none s = s
  copy_target (some t) s = copy_to_clipboard d (text_to_copy trim t.clippable t.own_text) s

  -- A click on the button of the element with the number copies before it shows that it did.
  unfoldable pub act : ℕ → Event → Page → Page
  unfolding copy_target
  act i hover p = record p { buttons = update_at i (step hover) p.buttons }
  act i click p = record {
    document = copy_target (get_elem? targets i) p.document;
    buttons = update_at i (step click) p.buttons;
  }
  act i timeout p = record p { buttons = update_at i (step timeout) p.buttons }

  unfoldable pub act_all : List (ℕ × Event) → Page → Page
  unfolding act
  act_all [] p = p
  act_all ((i, e) ∷ events) p = act_all events (act i e p)
