-- ===== src/CanIDeploy/Ignoring.antt =====
-- What a can-i-deploy query ignores, in lib/pact_broker/matrix/repository.rb: the selectors for the versions
-- of a pacticipant, and the rows that are left out of consideration. Which versions and rows there are
-- comes from the database.
pub mod Monotone
use pact_broker.Prelude.{
  ℕ, String, Bool, true, false, not, ◌&&◌, ◌||◌, Option, none, some, List, [], ◌∷◌, ◌++◌, map, any,
  ◌==◌, if◌then◌else◌,
}
use pact_broker.CanIDeploy.{
  DatabaseId, null_id, id, SelectorType, ResolvedSelector, Pacticipant, Version, Row, Integration,
  Options, QueryResults, only_pacticipant_name_specified,
}

-- The original selector.
pub record UnresolvedSelector : Type 0 where
  pub wanted_version_number : Option String
  pub wanted_latest : Bool
  pub wanted_tag : Option String
  pub wanted_branch : Option String
  pub wanted_environment_name : Option String

abbrev pub same_id : DatabaseId → DatabaseId → Bool
same_id null_id null_id = true
same_id null_id (id n) = false
same_id (id m) null_id = false
same_id (id m) (id n) = m == n

-- `==` of two numbers of versions, which may be `nil`.
abbrev pub same_version : Option DatabaseId → Option DatabaseId → Bool
same_version none none = true
same_version none (some b) = false
same_version (some a) none = false
same_version (some a) (some b) = same_id a b

-- The three kinds of selectors for a pacticipant that exists.
unfoldable pub selector_for_found_version :
    Pacticipant
    → Version
    → UnresolvedSelector
    → SelectorType
    → (one_of_many : Bool) → List ResolvedSelector
    → ResolvedSelector
selector_for_found_version p v u type one_of_many ignores = record {
  pacticipant_id = id p.pacticipant_id;
  pacticipant_name = p.name;
  pacticipant_version_id = some (id v.version_id);
  pacticipant_version_number = some v.number;
  latest = u.wanted_latest;
  tag = u.wanted_tag;
  branch = u.wanted_branch;
  environment_name = u.wanted_environment_name;
  type = type;
  ignore =
      any
        (λ s.
          same_id s.pacticipant_id (id p.pacticipant_id)
          && (only_pacticipant_name_specified s
              || same_version s.pacticipant_version_id (some (id v.version_id))))
        ignores;
  one_of_many = one_of_many;
  original_version_number = u.wanted_version_number;
}

unfoldable pub selector_for_non_existing_version :
    Pacticipant → UnresolvedSelector → SelectorType → List ResolvedSelector → ResolvedSelector
selector_for_non_existing_version p u type ignores = record {
  pacticipant_id = id p.pacticipant_id;
  pacticipant_name = p.name;
  pacticipant_version_id = some null_id;
  pacticipant_version_number = u.wanted_version_number;
  latest = u.wanted_latest;
  tag = u.wanted_tag;
  branch = u.wanted_branch;
  environment_name = u.wanted_environment_name;
  type = type;
  ignore =
      any (λ s. same_id s.pacticipant_id (id p.pacticipant_id) && only_pacticipant_name_specified s)
        ignores;
  one_of_many = false;
  original_version_number = u.wanted_version_number;
}

unfoldable pub selector_for_all_versions_of_a_pacticipant :
    Pacticipant → UnresolvedSelector → SelectorType → List ResolvedSelector → ResolvedSelector
selector_for_all_versions_of_a_pacticipant p u type ignores = record {
  pacticipant_id = id p.pacticipant_id;
  pacticipant_name = p.name;
  pacticipant_version_id = none;
  pacticipant_version_number = none;
  latest = false;
  tag = none;
  branch = none;
  environment_name = none;
  type = type;
  ignore =
      any (λ s. same_id s.pacticipant_id (id p.pacticipant_id) && only_pacticipant_name_specified s)
        ignores;
  one_of_many = false;
  original_version_number = u.wanted_version_number;
}

-- `versions.compact.size > 1`
abbrev pub several : List (Option Version) → Bool
several versions = more_than_one (found versions)
  where
    found : List (Option Version) → List Version
    found [] = []
    found (none ∷ versions) = found versions
    found (some v ∷ versions) = v ∷ found versions

    more_than_one : List Version → Bool
    more_than_one [] = false
    more_than_one (v ∷ []) = false
    more_than_one (v ∷ w ∷ versions) = true

unfoldable pub selector_for_version :
    Pacticipant
    → UnresolvedSelector
    → SelectorType
    → (one_of_many : Bool) → List ResolvedSelector
    → Option Version
    → ResolvedSelector
unfolding selector_for_found_version selector_for_non_existing_version
selector_for_version p u type one_of_many ignores none =
    selector_for_non_existing_version p u type ignores
selector_for_version p u type one_of_many ignores (some v) =
    selector_for_found_version p v u type one_of_many ignores

-- The versions that were looked up are `none` where all versions of the pacticipant are meant.
unfoldable pub build_resolved_selectors :
    Pacticipant
    → Option (List (Option Version))
    → UnresolvedSelector
    → SelectorType
    → List ResolvedSelector
    → List ResolvedSelector
unfolding selector_for_version selector_for_all_versions_of_a_pacticipant
build_resolved_selectors p none u type ignores =
    selector_for_all_versions_of_a_pacticipant p u type ignores ∷ []
build_resolved_selectors p (some versions) u type ignores =
    map (selector_for_version p u type (several versions) ignores) versions

-- `ignore_row?`
unfoldable pub ignore_row : List ResolvedSelector → Row → Bool
ignore_row ignores row =
    let provider_version_id = elim row.provider_version as (λ v. Option DatabaseId) [
      | none ↦ none
      | some v ↦ some (id v.version_id)
    ] in
    any
      (λ s.
        (same_id s.pacticipant_id (id row.consumer.pacticipant_id)
          && (only_pacticipant_name_specified s
              || same_version s.pacticipant_version_id (some (id row.consumer_version.version_id))))
        || (same_id s.pacticipant_id (id row.provider.pacticipant_id)
            && (only_pacticipant_name_specified s
                || same_version s.pacticipant_version_id provider_version_id)))
      ignores

-- `considered << row` or `ignored << row`, for each row.
unfoldable pub split_each :
    List ResolvedSelector → List Row → List Row × List Row → List Row × List Row
unfolding ignore_row
split_each ignores [] split = split
split_each ignores (row ∷ rows) (considered, ignored) = split_each ignores rows (
    if ignore_row ignores row
    then (considered, ignored ++ row ∷ [])
    else (considered ++ row ∷ [], ignored))

unfoldable pub split_rows_into_considered_and_ignored :
    List Row → List ResolvedSelector → List Row × List Row
unfolding split_each
split_rows_into_considered_and_ignored rows ignores =
    if any (λ s. true) ignores then split_each ignores rows ([], []) else (rows, [])

-- What is looked up for a selector: the pacticipant, and its versions. A query with a pacticipant that does
-- not exist is refused before.
pub record Resolution : Type 0 where
  pub found : Pacticipant
  pub versions : Option (List (Option Version))
  pub original : UnresolvedSelector
  pub kind : SelectorType

unfoldable pub resolve : List ResolvedSelector → List Resolution → List ResolvedSelector
unfolding build_resolved_selectors
resolve ignores [] = []
resolve ignores (r ∷ rest) =
    build_resolved_selectors r.found r.versions r.original r.kind ignores ++ resolve ignores rest

-- The results of a query with resolved ignore selectors. The rows are already sorted here, which leaves
-- the answer and the counts as they are.
unfoldable pub results :
    List Resolution → List Row → Options → List Integration → List ResolvedSelector → QueryResults
unfolding resolve split_rows_into_considered_and_ignored
results resolutions rows options integrations ignores =
    let (considered, ignored) = split_rows_into_considered_and_ignored rows ignores in
    record {
      considered_rows = considered;
      ignored_rows = ignored;
      options = options;
      resolved_selectors = resolve ignores resolutions;
      resolved_ignore_selectors = ignores;
      integrations = integrations;
    }
