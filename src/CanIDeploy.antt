-- ===== src/CanIDeploy.antt =====
-- The data of a can-i-deploy query in lib/pact_broker/matrix: resolved_selector.rb, integration.rb,
-- the rows of quick_row.rb and query_results.rb. Rows, versions and integrations come from the database.
pub mod Summary
pub mod Ignoring
use pact_broker.Prelude.{
  ℕ, String, Bool, true, false, not, ◌&&◌, ◌||◌, Option, none, some, List, ◌++◌, ◌==◌, str_eq,
}

-- The number of a row in the database, or the number -1 that stands for no row.
pub data DatabaseId : Type 0 where
  null_id : DatabaseId
  id : ℕ → DatabaseId

pub data SelectorType : Type 0 where
  specified inferred ignored : SelectorType

-- A resolved selector. `original_version_number` is the one of the original selector; `nil` is `none`.
pub record ResolvedSelector : Type 0 where
  pub pacticipant_id : DatabaseId
  pub pacticipant_name : String
  pub pacticipant_version_id : Option DatabaseId
  pub pacticipant_version_number : Option String
  pub latest : Bool
  pub tag : Option String
  pub branch : Option String
  pub environment_name : Option String
  pub type : SelectorType
  pub ignore : Bool
  pub one_of_many : Bool
  pub original_version_number : Option String

abbrev pub is_set {ℓ} : {A : Type ℓ} → Option A → Bool
is_set none = false
is_set (some a) = true

pub record Pacticipant : Type 0 where
  pub pacticipant_id : ℕ
  pub name : String

pub record Version : Type 0 where
  pub version_id : ℕ
  pub number : String

-- `for_pacticipant` and `for_pacticipant_and_version` for the empty original selector, as they are
-- called for the dummy selectors.
unfoldable pub for_pacticipant : Pacticipant → ResolvedSelector
for_pacticipant p = record {
  pacticipant_id = id p.pacticipant_id;
  pacticipant_name = p.name;
  pacticipant_version_id = none;
  pacticipant_version_number = none;
  latest = false;
  tag = none;
  branch = none;
  environment_name = none;
  type = inferred;
  ignore = false;
  one_of_many = false;
  original_version_number = none;
}

unfoldable pub for_pacticipant_and_version : Pacticipant → Version → ResolvedSelector
unfolding for_pacticipant
for_pacticipant_and_version p v = record (for_pacticipant p) {
  pacticipant_version_id = some (id v.version_id);
  pacticipant_version_number = some v.number;
}

unfoldable pub version_exists : ResolvedSelector → Bool
version_exists s = elim s.pacticipant_version_id [
  | none ↦ true
  | some v ↦ elim v [ null_id ↦ false | id n ↦ true ]
]

unfoldable pub pacticipant_does_not_exist : ResolvedSelector → Bool
pacticipant_does_not_exist s = elim s.pacticipant_id [ null_id ↦ true | id n ↦ false ]

unfoldable pub is_specified : ResolvedSelector → Bool
is_specified s = elim s.type [ specified ↦ true | _ ↦ false ]

unfoldable pub specified_version_that_does_not_exist : ResolvedSelector → Bool
unfolding is_specified version_exists
specified_version_that_does_not_exist s = is_specified s && not (version_exists s)

unfoldable pub pacticipant_or_version_does_not_exist : ResolvedSelector → Bool
unfolding pacticipant_does_not_exist version_exists
pacticipant_or_version_does_not_exist s = pacticipant_does_not_exist s || not (version_exists s)

unfoldable pub only_pacticipant_name_specified : ResolvedSelector → Bool
only_pacticipant_name_specified s =
    not (is_set s.branch)
    && not (is_set s.tag)
    && not s.latest
    && not (is_set s.pacticipant_version_number)

-- A row of the matrix: a pact of a consumer version, with a verification of it by a provider version if
-- there is one. `success` is `nil` where there is none.
pub record Row : Type 0 where
  pub consumer : Pacticipant
  pub provider : Pacticipant
  pub consumer_version : Version
  pub provider_version : Option Version
  pub success : Option Bool

pub record Integration : Type 0 where
  pub consumer : Pacticipant
  pub provider : Pacticipant
  pub required : Bool

unfoldable pub matches_pacticipant_ids : Integration → Row → Bool
matches_pacticipant_ids i row =
    (i.consumer.pacticipant_id == row.consumer.pacticipant_id)
    && (i.provider.pacticipant_id == row.provider.pacticipant_id)

-- The options that the summary reads.
pub record Options : Type 0 where
  pub option_tag : Option String
  pub option_environment_name : Option String

pub record QueryResults : Type 0 where
  pub considered_rows : List Row
  pub ignored_rows : List Row
  pub options : Options
  pub resolved_selectors : List ResolvedSelector
  pub resolved_ignore_selectors : List ResolvedSelector
  pub integrations : List Integration

abbrev pub rows : QueryResults → List Row
rows q = q.considered_rows ++ q.ignored_rows
