-- ===== src/Menu/Store/Events.antt =====
-- The life of a menu: when it is open, and what its watchers do.
use pact_broker.Prelude.{
  ℕ, ◌+◌, ◌≡◌, ◌≢◌, Option, refl, ◌∙◌, Bool, true, false, none, some, List, [], ◌∷◌, arith,
}
use pact_broker.Menu.Items.{Call, click}
use pact_broker.Menu.Store.{
  Menu, Event, open_action, close_action, item_click, press_outside, fade_end, step, closes, run,
}

open_now-closes : (call : Option Call) (m : Menu) → (closes call m).open_now ≡ m.open_now
unfolding closes
open_now-closes none m = refl
open_now-closes (some call) m = refl

watchers-closes : (call : Option Call) (m : Menu) → (closes call m).watchers ≡ m.watchers
unfolding closes
watchers-closes none m = refl
watchers-closes (some call) m = refl

items-closes : (call : Option Call) (m : Menu) → (closes call m).items ≡ m.items
unfolding closes
items-closes none m = refl
items-closes (some call) m = refl

-- Only a click can change the items of a menu.
pub items-step :
    (e : Event) (m : Menu) → ((k : ℕ) → (click k m.items).0 ≡ m.items) → (step e m).items ≡ m.items
unfolding step
items-step open_action m h = ground arith
items-step close_action m h = ground arith
items-step (item_click k) m h = items-closes (click k m.items).1 _ ∙ h k
items-step press_outside m h = refl
items-step fade_end m h = ground arith

-- An open menu stays open at every event but the end of a fading.
pub step-open_now :
    (e : Event) (m : Menu) → m.open_now ≡ true → e ≢ fade_end → (step e m).open_now ≡ true
unfolding step
step-open_now open_action m h ne = ground arith
step-open_now close_action m h ne = ground arith
step-open_now (item_click k) m h ne = open_now-closes (click k m.items).1 _ ∙ h
step-open_now press_outside m h ne = h
step-open_now fade_end m h ne = absurd (ne refl)

-- Whether an event opens a menu.
abbrev opens : Event → Bool → ℕ
opens open_action false = 1
opens _ _ = 0

-- How often an opening found the menu closed.
abbrev pub openings : List Event → Menu → ℕ
openings [] m = 0
openings (e ∷ events) m = opens e m.open_now + openings events (step e m)

watchers-step : (e : Event) (m : Menu) → (step e m).watchers ≡ m.watchers + opens e m.open_now
unfolding step
watchers-step open_action m = ground arith
watchers-step close_action m = ground arith
watchers-step (item_click k) m = watchers-closes (click k m.items).1 _ ∙ omega arith
watchers-step press_outside m = omega arith
watchers-step fade_end m = ground arith

-- After any events the document has as many more handlers of a menu as the menu was opened while it
-- was closed: nothing takes one away.
pub watchers-run :
    (events : List Event) (m : Menu) → (run events m).watchers ≡ m.watchers + openings events m
unfolding run
watchers-run [] m = omega arith
watchers-run (e ∷ events) m = omega (arith, watchers-step e m, watchers-run events (step e m))
