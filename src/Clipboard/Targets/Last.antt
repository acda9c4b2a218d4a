-- ===== src/Clipboard/Targets/Last.antt =====
-- What is in the clipboard, and what each button shows, after anything that happens to the buttons.
use pact_broker.Prelude.{
  ℕ, zero, suc, String, Option, none, some, List, [], ◌∷◌, ◌≡◌, refl, ap, ◌∙◌, ◌==◌, get_elem?,
  if◌then◌else◌, arith, Option-cases, Bool-cases, inl, inr,
}
use pact_broker.Js.{Value, holds}
use pact_broker.Js
use pact_broker.Clipboard.Dom.{Document}
use pact_broker.Clipboard.{text_to_copy, Clippy, Event, hover, click, timeout, step, run}
use pact_broker.Clipboard.Copied.{copy_to_clipboard_lem}
use pact_broker.Clipboard.Targets.{Target, update_at, Page, copy_target, act, act_all}

-- The events of one button.
abbrev pub events_of : ℕ → List (ℕ × Event) → List Event
events_of i [] = []
events_of i ((j, e) ∷ events) = if j == i then e ∷ events_of i events else events_of i events

abbrev pub through : {A B : Type 0} → (A → B) → Option A → Option B
through f none = none
through f (some a) = some (f a)

through_twice :
    {A B C : Type 0} (f : A → B) (g : B → C) (o : Option A)
    → through g (through f o) ≡ through (λ x. g (f x)) o
through_twice f g none = refl
through_twice f g (some a) = refl

get_elem?-update_at :
    (i j : ℕ) (f : Clippy → Clippy) (xs : List Clippy)
    → get_elem? (update_at i f xs) j
      ≡ (if i == j then through f (get_elem? xs j) else get_elem? xs j)
get_elem?-update_at i j f [] = ground arith
get_elem?-update_at zero zero f (x ∷ xs) = refl
get_elem?-update_at zero (suc j) f (x ∷ xs) = ground arith
get_elem?-update_at (suc i) zero f (x ∷ xs) = ground arith
get_elem?-update_at (suc i) (suc j) f (x ∷ xs) = get_elem?-update_at i j f xs ∙ ground arith

through_none : (k : ℕ) (xs : List Clippy) → get_elem? xs k ≡ through (run []) (get_elem? xs k)
unfolding run
through_none k xs = elim (Option-cases (get_elem? xs k)) [
  | inl missing ↦ rw missing refl
  | inr (x, there) ↦ rw there refl
]

run_first :
    (i k : ℕ) (e : Event) (events : List (ℕ × Event)) (xs : List Clippy)
    → through (run (events_of k events)) (get_elem? (update_at i (step e) xs) k)
      ≡ through (run (events_of k ((i, e) ∷ events))) (get_elem? xs k)
unfolding run
run_first i k e events xs = elim (Bool-cases (i == k)) [
  | inl here ↦
      rw (get_elem?-update_at i k (step e) xs, here)
        (through_twice (step e) (run (events_of k events)) (get_elem? xs k))
  | inr other ↦ rw (get_elem?-update_at i k (step e) xs, other) refl
]

module _ (d : Document) (trim : Value → String) (targets : List Target) where
  open d use {view}

  -- The data of the element, if they count as true, and else its text, both without the space around them.
  abbrev pub text_of : Option Target → String → String
  text_of none before = before
  text_of (some t) before =
      if holds t.clippable then trim t.clippable else trim (Js.text t.own_text)

  -- The text of the element whose button was clicked last, if there was a click, or else what was there.
  abbrev pub last_text : List (ℕ × Event) → String → String
  last_text [] before = before
  last_text ((i, hover) ∷ events) before = last_text events before
  last_text ((i, timeout) ∷ events) before = last_text events before
  last_text ((i, click) ∷ events) before = last_text events (text_of (get_elem? targets i) before)

  text_to_copy_lem :
      (t : Target)
      → text_to_copy trim t.clippable t.own_text
        ≡ (if holds t.clippable then trim t.clippable else trim (Js.text t.own_text))
  unfolding text_to_copy
  text_to_copy_lem t = elim (Bool-cases (holds t.clippable)) [
    | inl true_there ↦ rw true_there refl
    | inr false_there ↦ rw false_there refl
  ]

  copy_target_lem :
      (o : Option Target) (s : d.State)
      → ((view (copy_target d trim targets o s)).clipboard ≡ text_of o (view s).clipboard)
        × ((view (copy_target d trim targets o s)).body ≡ (view s).body)
  unfolding copy_target
  copy_target_lem none s = (refl, refl)
  copy_target_lem (some t) s =
      let (text, body) = copy_to_clipboard_lem d (text_to_copy trim t.clippable t.own_text) s in
      (text ∙ text_to_copy_lem t, body)

  buttons-act :
      (i : ℕ) (e : Event) (p : Page d trim targets)
      → (act d trim targets i e p).buttons ≡ update_at i (step e) p.buttons
  unfolding act
  buttons-act i hover p = refl
  buttons-act i click p = refl
  buttons-act i timeout p = refl

  document-act_all :
      (events : List (ℕ × Event)) (p : Page d trim targets)
      → let after = view (act_all d trim targets events p).document in
        (after.clipboard ≡ last_text events (view p.document).clipboard)
        × (after.body ≡ (view p.document).body)
  unfolding act_all act
  document-act_all [] p = (refl, refl)
  document-act_all ((i, hover) ∷ events) p = document-act_all events (act d trim targets i hover p)
  document-act_all ((i, timeout) ∷ events) p =
      document-act_all events (act d trim targets i timeout p)
  document-act_all ((i, click) ∷ events) p =
      let (text, body) = document-act_all events (act d trim targets i click p) in
      let (copied, kept) = copy_target_lem (get_elem? targets i) p.document in
      (text ∙ ap (last_text events) copied, body ∙ kept)

  button-act_all :
      (events : List (ℕ × Event)) (p : Page d trim targets) (k : ℕ)
      → get_elem? (act_all d trim targets events p).buttons k
        ≡ through (run (events_of k events)) (get_elem? p.buttons k)
  unfolding act_all run
  button-act_all [] p k = through_none k p.buttons
  button-act_all ((i, e) ∷ events) p k =
      button-act_all events (act d trim targets i e p) k
      ∙ ap (λ l. through (run (events_of k events)) (get_elem? l k)) (buttons-act i e p)
      ∙ run_first i k e events p.buttons

  -- Whatever happens to the buttons: what was in the clipboard is replaced by the text of the element whose
  -- button was clicked last, if there was a click; the children of the body are those that were there;
  -- and each button is as its own events alone leave it.
  pub act_all_lem :
      (events : List (ℕ × Event)) (p : Page d trim targets) (k : ℕ)
      → let after = act_all d trim targets events p in
        ((view after.document).clipboard ≡ last_text events (view p.document).clipboard)
        × ((view after.document).body ≡ (view p.document).body)
        × (get_elem? after.buttons k ≡ through (run (events_of k events)) (get_elem? p.buttons k))
  act_all_lem events p k =
      let (text, body) = document-act_all events p in (text, body, button-act_all events p k)
