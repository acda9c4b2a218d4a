-- ===== src/Examples/PactPages.antt =====
-- Deletions of public/javascripts/pact.js at concrete inputs.
use pact_broker.Prelude.{get_elem?, ◌≡◌, refl, true, false, none, some, List, [], ◌∷◌, All}
use pact_broker.Js.{null, Value, undefined, text, object, field, done, holds, property}
use pact_broker.Deletion.Message.{Printer}
use pact_broker.Deletion.PactPage
use pact_broker.Deletion.PactPage.{
  PactData, PactData, Dialog, where_next, all_deleted, latest, home, press,
}
use pact_broker.Menu.Items.{make_item, make_items}
use pact_broker.Menu.Store.{Store, init}
use pact_broker.Menu.Parents.{init_all}
use pact_broker.Menu.Owners.{Screen, settings_click, entry_click, page_event}
use pact_broker.Menu.Owners as Owners
use pact_broker.Deletion.PactPage.Options.{BadgedPage, Event, badge_click, pact_event, ready, run}
use pact_broker.Deletion.PactPage.Options.Within.{requests-run-ready}
use pact_broker.Menu.Owners.Projected.{IsOn}

abbrev printer : Printer
printer = record { inherited = λ v key. undefined; print = λ v. "value"; stringify = λ v. "{}" }

abbrev index_link : Value
index_link = object (field "href" (text "/") done)

abbrev latest_link : Value
latest_link = object (field "href" (text "/latest") done)

abbrev two_links : Value
two_links = object (field "index" index_link (field "pb:latest-pact-version" latest_link done))

abbrev body_of : Value → Value
body_of links = object (field "_links" links done)

abbrev idle_page : PactPage.Page
idle_page = record {
  dialog = none;
  pending = [];
  requests = [];
  alerts = [];
  location = none;
  thrown = false;
}

links_of : (links : Value) → property printer.inherited (body_of links) "_links" ≡ some links
unfolding property
links_of links = refl

index_of_two : property printer.inherited two_links "index" ≡ some index_link
unfolding property
index_of_two = refl

index_url : property printer.inherited index_link "href" ≡ some (text "/")
unfolding property
index_url = refl

latest_of_two : property printer.inherited two_links "pb:latest-pact-version" ≡ some latest_link
unfolding property
latest_of_two = refl

latest_true : holds latest_link ≡ true
unfolding holds
latest_true = refl

latest_url : property printer.inherited latest_link "href" ≡ some (text "/latest")
unfolding property
latest_url = refl

abbrev a_pact : PactData
a_pact = record { consumer_version_number = "1"; consumer_name = "Foo"; pact_url = "/pact" }

abbrev second_thoughts : List PactPage.Event
second_thoughts = PactPage.choose a_pact ∷ PactPage.pressed PactPage.cancel ∷ []

abbrev badged : BadgedPage
badged = record { pact = idle_page; markdown_shown = false }

abbrev no_menus : Store
no_menus = record { id = 0; menus = [] }

first_key : get_elem? (ready (a_pact ∷ []) no_menus badged).1 0 ≡ some 0
unfolding ready Owners.ready init_all init make_items make_item
first_key = refl

-- The menu of the pact is opened, its entry is chosen twice and the deletion confirmed once.
abbrev course : List Event
course =
    settings_click 0
    ∷ entry_click 0 0
    ∷ page_event (pact_event (PactPage.pressed PactPage.cancel))
    ∷ page_event badge_click
    ∷ entry_click 0 0
    ∷ page_event (pact_event (PactPage.pressed PactPage.delete))
    ∷ page_event (pact_event (PactPage.success 0 null))
    ∷ []

course-IsOn : All (IsOn (ready (a_pact ∷ []) no_menus badged).0.owners) course
unfolding ready Owners.ready init_all init make_items make_item
course-IsOn = ((_, refl), (tt, (tt, (tt, (tt, (tt, (tt, tt)))))))

requests-run-ready_example :
    (after : Screen PactData BadgedPage) × (run
        (λ s. s)
        printer
        course
        (ready (a_pact ∷ []) no_menus badged).0
      ≡ some after)
    × All (λ url. url ≡ "/pact") after.page.pact.requests
requests-run-ready_example =
    requests-run-ready (λ s. s) printer (λ url. url ≡ "/pact") course (a_pact ∷ []) no_menus badged
      refl (tt, (tt, (tt, (tt, (tt, (tt, (tt, tt))))))) course-IsOn (refl, tt) tt
