-- ===== src/Examples/Deployments.antt =====
-- The summaries of lib/pact_broker/matrix/deployment_status_summary.rb at concrete results.
use pact_broker.Prelude.{
  ℕ, ◌+◌, ◌≡◌, ◌↔◌, refl, Bool, true, false, Option, none, some, List, [], ◌∷◌, any, All, length,
  ltb, ◌==◌, if◌then◌else◌,
}
use pact_broker.CanIDeploy.{
  id, specified, ignored, ResolvedSelector, Pacticipant, Version, Row, Integration, Options,
  QueryResults, version_exists, is_specified, specified_version_that_does_not_exist,
  only_pacticipant_name_specified, matches_pacticipant_ids,
}
use pact_broker.CanIDeploy.Ignoring.{
  Resolution, ignore_row, split_each, split_rows_into_considered_and_ignored, resolve, results,
  build_resolved_selectors, selector_for_version, selector_for_found_version,
}
use pact_broker.CanIDeploy.Summary.{
  reasons, deployable, counts, required_integrations_without_a_row, row_exists_for_integration,
  considered_specified_selectors_that_do_not_exist,
}
use pact_broker.CanIDeploy.Summary.Lists.{has_any}
use pact_broker.CanIDeploy.Summary.Answers.{is_error, is_success}
use pact_broker.CanIDeploy.Summary.Told.{deployable-reasons}
use pact_broker.CanIDeploy.Summary.Counted.{deployable-counts}
use pact_broker.CanIDeploy.Summary.Held.{Holds, reasons-Holds}
use pact_broker.CanIDeploy.Ignoring.Monotone.{deployable-results}

abbrev foo : Pacticipant
foo = record { pacticipant_id = 1; name = "Foo" }

abbrev bar : Pacticipant
bar = record { pacticipant_id = 2; name = "Bar" }

abbrev baz : Pacticipant
baz = record { pacticipant_id = 3; name = "Baz" }

abbrev version : ℕ → Version
version n = record { version_id = n; number = "1" }

abbrev row : Pacticipant → Option Bool → Row
row provider success = record {
  consumer = foo;
  provider = provider;
  consumer_version = version 1;
  provider_version = some (version 2);
  success = success;
}

abbrev needs : Pacticipant → Integration
needs provider = record { consumer = foo; provider = provider; required = true }

-- Version 1 of Foo.
abbrev wanted : Resolution
wanted = record {
  found = foo;
  versions = some (some (version 1) ∷ []);
  original = record {
    wanted_version_number = some "1";
    wanted_latest = false;
    wanted_tag = none;
    wanted_branch = none;
    wanted_environment_name = none;
  };
  kind = specified;
}

-- All versions of Baz are to be ignored.
abbrev without_baz : ResolvedSelector
without_baz = record {
  pacticipant_id = id 3;
  pacticipant_name = "Baz";
  pacticipant_version_id = none;
  pacticipant_version_number = none;
  latest = false;
  tag = none;
  branch = none;
  environment_name = none;
  type = ignored;
  ignore = false;
  one_of_many = false;
  original_version_number = none;
}

abbrev to_prod : Options
to_prod = record { option_tag = some "prod"; option_environment_name = none }

-- The verification by Bar succeeded and that by Baz failed.
abbrev asked : List ResolvedSelector → QueryResults
asked =
    results (wanted ∷ []) (row bar (some true) ∷ row baz (some false) ∷ []) to_prod
      (needs bar ∷ needs baz ∷ [])

-- As it is asked for, Foo cannot be deployed; with Baz ignored it can.
refused : deployable (asked []) ≡ some false
unfolding deployable results resolve build_resolved_selectors selector_for_version
    selector_for_found_version split_rows_into_considered_and_ignored
    considered_specified_selectors_that_do_not_exist required_integrations_without_a_row
    row_exists_for_integration matches_pacticipant_ids specified_version_that_does_not_exist
    version_exists is_specified
refused = refl

allowed : deployable (asked (without_baz ∷ [])) ≡ some true
unfolding deployable results resolve build_resolved_selectors selector_for_version
    selector_for_found_version split_rows_into_considered_and_ignored split_each ignore_row
    considered_specified_selectors_that_do_not_exist required_integrations_without_a_row
    row_exists_for_integration matches_pacticipant_ids specified_version_that_does_not_exist
    version_exists is_specified only_pacticipant_name_specified
allowed = refl

deployable-reasons_example :
    let q = asked (without_baz ∷ []) in
    ((deployable q ≡ some true) ↔ (any is_error (reasons q) ≡ false))
    × ((deployable q ≡ some true) ↔ (any is_success (reasons q) ≡ true))
deployable-reasons_example = deployable-reasons (asked (without_baz ∷ []))

deployable-counts_example :
    let q = asked [] in
    let c = counts q in
    (deployable q ≡ (
      if has_any (considered_specified_selectors_that_do_not_exist q)
      then some false
      else if ltb 0 c.unknown_count
      then none
      else some (c.failed_count == 0)))
    × (c.success_count + c.failed_count + c.unknown_count
        ≡ length q.considered_rows + length (required_integrations_without_a_row q))
deployable-counts_example = deployable-counts (asked [])

reasons-Holds_example : All (Holds (asked [])) (reasons (asked []))
reasons-Holds_example = reasons-Holds (asked [])

-- Without the row of Baz.
abbrev good : List ResolvedSelector → QueryResults
good = results (wanted ∷ []) (row bar (some true) ∷ []) to_prod (needs bar ∷ [])

good_allowed : deployable (good []) ≡ some true
unfolding deployable results resolve build_resolved_selectors selector_for_version
    selector_for_found_version split_rows_into_considered_and_ignored
    considered_specified_selectors_that_do_not_exist required_integrations_without_a_row
    row_exists_for_integration matches_pacticipant_ids specified_version_that_does_not_exist
    version_exists is_specified
good_allowed = refl

deployable-results_example : deployable (good (without_baz ∷ [])) ≡ some true
deployable-results_example =
    deployable-results (wanted ∷ []) (row bar (some true) ∷ []) to_prod (needs bar ∷ [])
      (without_baz ∷ []) good_allowed
