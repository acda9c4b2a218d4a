-- ===== src/Examples/Deletions.antt =====
-- Deletions of public/javascripts/index.js at concrete inputs.
use pact_broker.Prelude.{
  ◌≡◌, ◌≢◌, refl, false, ◌&&◌, none, some, List, [], ◌∷◌, All, str_eq, get_elem?, ◌++◌,
}
use pact_broker.Js.{undefined}
use pact_broker.Deletion.Message.{Printer}
use pact_broker.Deletion.IndexPage.{
  Row, Task, Page, Selector, handle_delete_resources_selected, handle_deletion_success, Event,
  delete_pacts, confirm, cancel, slid, success, is_in, run,
}
use pact_broker.Deletion.IndexPage.Rows.{IsAtRest, DistinctIds, task}
use pact_broker.Deletion.IndexPage.Gone.{run_success-IsOutside}
use pact_broker.Deletion.IndexPage.Runs.{IsKept, run-IsKept}
use pact_broker.Deletion.IndexPage.{step}
use pact_broker.Deletion.IndexPage.Sent.{question_of, run-all_sent}
use pact_broker.Deletion.IndexPage.Order.{answers, run-answers}

abbrev printer : Printer
printer = record { inherited = λ v key. undefined; print = λ v. "value"; stringify = λ v. "{}" }

abbrev by_names : Selector
by_names consumer provider r = str_eq r.consumer_name consumer && str_eq r.provider_name provider

abbrev first_row : Row
first_row = record {
  id = 1;
  consumer_name = "Foo";
  provider_name = "Bar";
  pact_versions_url = "/pacts/provider/Bar/consumer/Foo/versions";
  integration_url = "/integrations/provider/Bar/consumer/Foo";
  highlighted = false;
  sliding = false;
}

abbrev second_row : Row
second_row = record first_row { id = 2; consumer_name = "Baz" }

abbrev table : Page
table = record {
  rows = first_row ∷ second_row ∷ [];
  dialog = none;
  pending = [];
  requests = [];
  alerts = [];
}

at_rest : IsAtRest table.rows
at_rest = ((refl, refl), ((refl, refl), tt))

distinct : DistinctIds table.rows
distinct = (refl, (refl, tt))

abbrev asked : Page
asked = handle_delete_resources_selected by_names first_row "/url" "Sure?" table

abbrev asked_task : Task
asked_task = task by_names first_row "/url" "Sure?" table

abbrev hesitation : List Event
hesitation = delete_pacts first_row ∷ cancel ∷ slid ∷ []

unconfirmed : All (λ e. e ≢ confirm) hesitation
unconfirmed = (λ e. cc, (λ e. cc, (λ e. cc, tt)))

run-IsKept_example : IsKept table (run by_names printer hesitation table)
run-IsKept_example =
    run-IsKept by_names printer hesitation table unconfirmed refl (refl, (refl, tt))

abbrev waiting : Page
waiting = record table { pending = record { url = "/url"; text = "Sure?"; rows = 1 ∷ [] } ∷ [] }

abbrev waiting_task : Task
waiting_task = record { url = "/url"; text = "Sure?"; rows = 1 ∷ [] }

request_waits : get_elem? waiting.pending 0 ≡ some waiting_task
request_waits = refl

run_success-IsOutside_example :
    All
      (λ r. is_in (1 ∷ []) r ≡ false)
      (run by_names printer
        (success 0 ∷ ((delete_pacts second_row ∷ []) ++ slid ∷ (confirm ∷ [])))
        waiting).rows
run_success-IsOutside_example =
    run_success-IsOutside by_names printer 0 waiting (delete_pacts second_row ∷ []) (confirm ∷ [])
      request_waits

abbrev course : List Event
course = delete_pacts first_row ∷ confirm ∷ delete_pacts second_row ∷ cancel ∷ success 0 ∷ []

run-all_sent_example :
    let after = run by_names printer course table in
    (question_of after.dialog ≡ none)
    × (after.requests ≡ "/pacts/provider/Bar/consumer/Foo/versions" ∷ [])
run-all_sent_example = run-all_sent by_names printer course table

-- Two requests, of which the later one is answered first.
abbrev two_waiting : Page
two_waiting = record table {
  pending = waiting_task ∷ record { url = "/url"; text = "Sure?"; rows = 2 ∷ [] } ∷ [];
}

drained : (run by_names printer (answers (1 ∷ 0 ∷ [])) two_waiting).pending ≡ []
unfolding run step handle_deletion_success
drained = refl

run-answers_example :
    (run by_names printer (answers (1 ∷ 0 ∷ []) ++ slid ∷ []) two_waiting).rows ≡ []
run-answers_example = run-answers by_names printer (1 ∷ 0 ∷ []) two_waiting drained
