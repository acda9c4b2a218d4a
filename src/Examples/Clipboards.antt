-- ===== src/Examples/Clipboards.antt =====
-- Copies of public/javascripts/clipboard.js at concrete inputs.
use pact_broker.Prelude.{ℕ, String, false, none, some, List, [], ◌∷◌, ◌≡◌, get_elem?}
use pact_broker.Js.{Value, undefined, text}
use pact_broker.Clipboard.{Clippy, Event, hover, click, run}
use pact_broker.Clipboard.Dom.{Plain, plain_document}
use pact_broker.Clipboard.Targets.{Target, Page, act_all}
use pact_broker.Clipboard.Targets.Last.{events_of, through, last_text, act_all_lem}

abbrev two_children : Plain
two_children = record {
  body = 1 ∷ 2 ∷ [];
  value = λ m. "";
  chosen = none;
  ranges = 7 ∷ 8 ∷ [];
  clipboard = "";
}

-- Numbers and objects are left out here.
abbrev plain_trim : Value → String
plain_trim (text t) = t
plain_trim v = ""

abbrev targets : List Target
targets =
    record { clippable = text "abc"; own_text = "..." }
    ∷ record { clippable = undefined; own_text = "Foo" }
    ∷ []

abbrev idle : Clippy
idle = record { invisible = false; icon = "copy-icon"; timers = 0 }

abbrev page : Page plain_document plain_trim targets
page = record { document = two_children; buttons = idle ∷ idle ∷ [] }

abbrev two_clicks : List (ℕ × Event)
two_clicks = (0, click) ∷ (1, hover) ∷ (1, click) ∷ []

act_all_lem_example :
    let after = act_all plain_document plain_trim targets two_clicks page in
    (after.document.clipboard ≡ last_text plain_document plain_trim targets two_clicks "")
    × (after.document.body ≡ 1 ∷ 2 ∷ [])
    × (get_elem? after.buttons 1 ≡ through (run (events_of 1 two_clicks)) (some idle))
act_all_lem_example = act_all_lem plain_document plain_trim targets two_clicks page 1
