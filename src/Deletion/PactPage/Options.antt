-- ===== src/Deletion/PactPage/Options.antt =====
-- public/javascripts/pact.js from the moment when the page is ready: the menus of the elements
-- "more-options", whose entry asks for the deletion, and the badge that shows its own markdown.
pub mod Chosen
pub mod Within
use pact_broker.Prelude.{ℕ, String, Bool, false, not, Option, none, some, List, [], ◌∷◌}
use pact_broker.Menu.Items.{Settings, Call}
use pact_broker.Menu.Store.{Store}
use pact_broker.Menu.Owners.{Screen}
use pact_broker.Menu.Owners as Owners
use pact_broker.Deletion.Message.{Printer}
use pact_broker.Deletion.PactPage.{PactData, Page, prompt_to_delete_resource}
use pact_broker.Deletion.PactPage as PactPage

-- The rest of the page, and whether the markdown of the badge is shown.
pub record BadgedPage : Type 0 where
  pub pact : Page
  pub markdown_shown : Bool

pub data BadgedEvent : Type 0 where
  badge_click : BadgedEvent
  pact_event : PactPage.Event → BadgedEvent

unfoldable pub badged_step : (String → String) → Printer → BadgedEvent → BadgedPage → BadgedPage
badged_step h printer badge_click v = record v { markdown_shown = not v.markdown_shown }
badged_step h printer (pact_event e) v = record v { pact = PactPage.step h printer e v.pact }

abbrev pub options_settings : List Settings
options_settings =
    record { text = some "Delete ..."; type = some "normal"; radio_group = none; checked = false }
    ∷ []

-- Each element "more-options" gets its menu; the element has the data of the pact.
unfoldable pub ready : List PactData → Store → BadgedPage → Screen PactData BadgedPage × List ℕ
unfolding Owners.ready
ready pacts s v = Owners.ready options_settings pacts s v

-- What the only entry calls, with the data of the element whose menu it is in.
unfoldable pub call_entry :
    (String → String) → Option Call → Option PactData → BadgedPage → BadgedPage
call_entry h none d v = v
call_entry h (some call) none v = v
call_entry h (some call) (some d) v = record v { pact = prompt_to_delete_resource h d v.pact }

abbrev pub Event : Type 0
Event = Owners.Event BadgedEvent

unfoldable pub run :
    (String → String)
    → Printer
    → List Event
    → Screen PactData BadgedPage
    → Option (Screen PactData BadgedPage)
unfolding call_entry badged_step Owners.run
run h printer = Owners.run (call_entry h) (badged_step h printer)
