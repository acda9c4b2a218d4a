-- ===== src/Menu/Store/Closing.antt =====
-- A menu that is closed ends up closed.
use pact_broker.Prelude.{
  ◌≤◌, ◌≡◌, ◌≢◌, refl, true, false, Option, none, some, List, [], ◌∷◌, ◌++◌, All, ◌⊎◌, inr, arith,
}
use pact_broker.Menu.Items.{Call, click}
use pact_broker.Menu.Store.{
  Menu, Event, open_action, close_action, item_click, press_outside, fade_end, step, closes, run,
}

-- Closed, or a fading is still to end.
IsClosing : Menu → Type 0
IsClosing m = (m.open_now ≡ false) ⊎ (1 ≤ m.fades)

closes-IsClosing : (call : Option Call) (m : Menu) → IsClosing m → IsClosing (closes call m)
unfolding IsClosing closes
closes-IsClosing none m h = h
closes-IsClosing (some call) m h = inr (omega arith)

closes-shut :
    (call : Option Call) (m : Menu) → m.open_now ≡ false → (closes call m).open_now ≡ false
unfolding closes
closes-shut none m h = h
closes-shut (some call) m h = h

step-IsClosing : (e : Event) (m : Menu) → e ≢ open_action → IsClosing m → IsClosing (step e m)
unfolding step IsClosing
step-IsClosing open_action m ne h = absurd (ne refl)
step-IsClosing close_action m ne h = ground arith
step-IsClosing (item_click k) m ne h =
    closes-IsClosing (click k m.items).1 (record m { items = (click k m.items).0 }) h
step-IsClosing press_outside m ne h = ground arith
step-IsClosing fade_end m ne h = ground arith

step-shut :
    (e : Event) (m : Menu) → e ≢ open_action → m.open_now ≡ false → (step e m).open_now ≡ false
unfolding step
step-shut open_action m ne h = absurd (ne refl)
step-shut close_action m ne h = ground arith
step-shut (item_click k) m ne h =
    closes-shut (click k m.items).1 (record m { items = (click k m.items).0 }) h
step-shut press_outside m ne h = h
step-shut fade_end m ne h = ground arith

run-IsClosing :
    (events : List Event) (m : Menu)
    → All (λ e. e ≢ open_action) events
    → IsClosing m
    → IsClosing (run events m)
unfolding run
run-IsClosing [] m ne h = h
run-IsClosing (e ∷ events) m ne h = run-IsClosing events (step e m) ne.1 (step-IsClosing e m ne.0 h)

run-shut :
    (events : List Event) (m : Menu)
    → All (λ e. e ≢ open_action) events
    → m.open_now ≡ false
    → (run events m).open_now ≡ false
unfolding run
run-shut [] m ne h = h
run-shut (e ∷ events) m ne h = run-shut events (step e m) ne.1 (step-shut e m ne.0 h)

run-append : (xs ys : List Event) (m : Menu) → run (xs ++ ys) m ≡ run ys (run xs m)
unfolding run
run-append [] ys m = refl
run-append (e ∷ xs) ys m = run-append xs ys (step e m)

step_fade-shut : (m : Menu) → IsClosing m → (step fade_end m).open_now ≡ false
unfolding step IsClosing
step_fade-shut m h = ground arith

step_close-IsClosing : (m : Menu) → m.open_now ≡ true → IsClosing (step close_action m)
unfolding step IsClosing
step_close-IsClosing m h = ground arith

-- An open menu that is closed is closed for good once a fading has ended, whatever happens before that
-- and after it, as long as it is not opened again.
pub run_close-shut :
    (m : Menu) (before after : List Event)
    → m.open_now ≡ true
    → All (λ e. e ≢ open_action) before
    → All (λ e. e ≢ open_action) after
    → (run (close_action ∷ (before ++ fade_end ∷ after)) m).open_now ≡ false
unfolding run
run_close-shut m before after h ne ne_after =
    let closing = run-IsClosing before (step close_action m) ne (step_close-IsClosing m h) in
    rw (run-append before (fade_end ∷ after) (step close_action m))
      (run-shut after _ ne_after (step_fade-shut (run before (step close_action m)) closing))
