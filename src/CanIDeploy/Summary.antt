-- ===== src/CanIDeploy/Summary.antt =====
-- `DeploymentStatusSummary` of lib/pact_broker/matrix/deployment_status_summary.rb, and the reasons of
-- reason.rb.
pub mod Lists
pub mod Answers
pub mod Told
pub mod Counted
pub mod Named
pub mod Held
use pact_broker.Prelude.{
  ℕ, ◌+◌, String, Bool, true, false, not, ◌&&◌, ◌||◌, Option, none, some, List, [], ◌∷◌, ◌++◌, map,
  keep, any, length, concat, str_eq, if◌then◌else◌,
}
use pact_broker.CanIDeploy.{
  Pacticipant, Version, ResolvedSelector, Row, Integration, QueryResults, rows, is_set,
  for_pacticipant, for_pacticipant_and_version, is_specified, specified_version_that_does_not_exist,
  pacticipant_or_version_does_not_exist, only_pacticipant_name_specified, matches_pacticipant_ids,
}

-- The classes of the reasons that a summary gives. A selector that was not found is `none`.
pub data Reason : Type 0 where
  pact_not_ever_verified_by_provider pact_not_verified_by_required_provider_version
        verification_failed :
      (consumer_selector provider_selector : Option ResolvedSelector) → Reason
  specified_version_does_not_exist ignore_selector_does_not_exist : ResolvedSelector → Reason
  no_environment_specified selector_without_pacticipant_version_number_specified : Reason
  successful no_dependencies_missing : Reason

-- The `type` of a reason.
pub data ReasonType : Type 0 where
  error warning success : ReasonType

unfoldable pub type_of : Reason → ReasonType
type_of (pact_not_ever_verified_by_provider c p) = error
type_of (pact_not_verified_by_required_provider_version c p) = error
type_of (verification_failed c p) = error
type_of (specified_version_does_not_exist s) = error
type_of (ignore_selector_does_not_exist s) = warning
type_of no_environment_specified = warning
type_of selector_without_pacticipant_version_number_specified = warning
type_of successful = success
type_of no_dependencies_missing = success

-- `row.success`, `row.success == false` and `row.success.nil?`
abbrev pub succeeds : Row → Bool
succeeds row = elim row.success [ none ↦ false | some b ↦ b ]

abbrev pub fails : Row → Bool
fails row = elim row.success [ none ↦ false | some b ↦ not b ]

abbrev pub is_unknown : Row → Bool
is_unknown row = not (is_set row.success)

abbrev pub all {ℓ} : {A : Type ℓ} → (A → Bool) → List A → Bool
all p [] = true
all p (x ∷ xs) = p x && all p xs

abbrev pub find {ℓ} : {A : Type ℓ} → (A → Bool) → List A → Option A
find p [] = none
find p (x ∷ xs) = if p x then some x else find p xs

unfoldable pub provider_selector : Pacticipant → Option Version → ResolvedSelector
unfolding for_pacticipant for_pacticipant_and_version
provider_selector provider none = for_pacticipant provider
provider_selector provider (some version) = for_pacticipant_and_version provider version

unfoldable pub row_pair : Row → List ResolvedSelector
unfolding for_pacticipant_and_version provider_selector
row_pair row =
    for_pacticipant_and_version row.consumer row.consumer_version
    ∷ provider_selector row.provider row.provider_version
    ∷ []

unfoldable pub integration_pair : Integration → List ResolvedSelector
unfolding for_pacticipant
integration_pair i = for_pacticipant i.consumer ∷ for_pacticipant i.provider ∷ []

module _ (q : QueryResults) where
  unfoldable pub row_exists_for_integration : Integration → Bool
  row_exists_for_integration i = any (matches_pacticipant_ids i) (rows q)

  unfoldable pub required_integrations_without_a_row : List Integration
  unfolding row_exists_for_integration
  required_integrations_without_a_row =
      keep (λ i. not (row_exists_for_integration i)) (keep (λ i. i.required) q.integrations)

  -- `considered_specified_selectors_that_do_not_exist`, and the selectors of
  -- `specified_selectors_do_not_exist_messages`
  unfoldable pub considered_specified_selectors_that_do_not_exist : List ResolvedSelector
  considered_specified_selectors_that_do_not_exist =
      keep specified_version_that_does_not_exist (keep (λ s. not s.ignore) q.resolved_selectors)

  unfoldable pub specified_selectors_do_not_exist_messages : List Reason
  specified_selectors_do_not_exist_messages =
      map specified_version_does_not_exist
        (keep (λ s. not s.ignore) (keep specified_version_that_does_not_exist q.resolved_selectors))

  unfoldable pub deployable : Option Bool
  unfolding considered_specified_selectors_that_do_not_exist required_integrations_without_a_row
  deployable =
      if any (λ s. true) considered_specified_selectors_that_do_not_exist
      then some false
      else if any is_unknown q.considered_rows
      then none
      else if any (λ i. true) required_integrations_without_a_row
      then none
      else some (all succeeds q.considered_rows)

  -- `create_dummy_selectors`. Its `uniq` is left out: only the first selector with a name is looked for.
  unfoldable pub dummy_selectors : List ResolvedSelector
  unfolding row_pair integration_pair
  dummy_selectors =
      concat (map row_pair q.considered_rows) ++ concat (map integration_pair q.integrations)

  unfoldable pub selector_for : String → Option ResolvedSelector
  unfolding dummy_selectors
  selector_for name = elim (find (λ s. str_eq s.pacticipant_name name) q.resolved_selectors) [
    | none ↦ find (λ s. str_eq s.pacticipant_name name) dummy_selectors
    | some s ↦ some s
  ]

  unfoldable pub missing_reasons : List Reason
  unfolding selector_for required_integrations_without_a_row
  missing_reasons =
      map {A = Integration}
        (λ i.
          pact_not_verified_by_required_provider_version (selector_for i.consumer.name)
            (selector_for i.provider.name))
        required_integrations_without_a_row

  unfoldable pub failure_messages : List Reason
  unfolding selector_for
  failure_messages =
      map {A = Row}
        (λ row.
          verification_failed (selector_for row.consumer.name) (selector_for row.provider.name))
        (keep fails q.considered_rows)

  unfoldable pub not_ever_verified_reasons : List Reason
  unfolding selector_for
  not_ever_verified_reasons =
      map {A = Row}
        (λ row.
          pact_not_ever_verified_by_provider (selector_for row.consumer.name)
            (selector_for row.provider.name))
        (keep is_unknown q.considered_rows)

  -- Its `uniq` compares the reasons by identity, so that none is left out: they have `==`, but neither
  -- `eql?` nor `hash`.
  unfoldable pub error_messages : List Reason
  unfolding specified_selectors_do_not_exist_messages missing_reasons failure_messages
      not_ever_verified_reasons
  error_messages = elim specified_selectors_do_not_exist_messages [
    | [] ↦ missing_reasons ++ failure_messages ++ not_ever_verified_reasons
    | m ∷ messages ↦ m ∷ messages
  ]

  unfoldable pub no_to_tag_or_environment_specified : Bool
  no_to_tag_or_environment_specified =
      not (is_set q.options.option_tag || is_set q.options.option_environment_name)

  unfoldable pub selector_without_pacticipant_version_number : Bool
  selector_without_pacticipant_version_number =
      any (λ s. true)
        (keep (λ s. not (is_set s.original_version_number))
          (keep (λ s. not (only_pacticipant_name_specified s))
            (keep is_specified q.resolved_selectors)))

  unfoldable pub bad_practice_warnings : List Reason
  unfolding no_to_tag_or_environment_specified selector_without_pacticipant_version_number
  bad_practice_warnings =
      (if no_to_tag_or_environment_specified then no_environment_specified ∷ [] else [])
      ++ (if selector_without_pacticipant_version_number
          then selector_without_pacticipant_version_number_specified ∷ []
          else [])

  unfoldable pub warning_messages : List Reason
  unfolding bad_practice_warnings
  warning_messages =
      map ignore_selector_does_not_exist
        (keep pacticipant_or_version_does_not_exist q.resolved_ignore_selectors)
      ++ bad_practice_warnings

  unfoldable pub success_messages : List Reason
  unfolding required_integrations_without_a_row
  success_messages =
      if all succeeds q.considered_rows && not (any (λ i. true) required_integrations_without_a_row)
      then (if any (λ row. true) q.considered_rows
          then successful ∷ []
          else no_dependencies_missing ∷ [])
      else []

  unfoldable pub reasons : List Reason
  unfolding error_messages warning_messages success_messages
  reasons = elim error_messages [
    | [] ↦ warning_messages ++ success_messages
    | m ∷ messages ↦ warning_messages ++ (m ∷ messages)
  ]

-- `counts`; `ignored` is left out where no selector is ignored.
pub record Counts : Type 0 where
  pub success_count : ℕ
  pub failed_count : ℕ
  pub unknown_count : ℕ
  pub ignored_count : Option ℕ

unfoldable pub counts : QueryResults → Counts
unfolding required_integrations_without_a_row
counts q = record {
  success_count = length (keep succeeds q.considered_rows);
  failed_count = length (keep fails q.considered_rows);
  unknown_count =
      length (required_integrations_without_a_row q) + length (keep is_unknown q.considered_rows);
  ignored_count =
      if any (λ s. true) q.resolved_ignore_selectors then some (length q.ignored_rows) else none;
}
