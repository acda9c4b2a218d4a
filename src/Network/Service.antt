-- ===== src/Network/Service.antt =====
-- lib/pact_broker/groups/service.rb: the group of a pacticipant. The items of the index, which the index
-- service finds in the database, are a parameter.
pub mod Found
use pact_broker.Prelude.{Bool, Option, none, some, List, [], ◌∷◌, if◌then◌else◌}
use pact_broker.Network.{IndexItem, Pacticipant, Group, include_pacticipant}
use pact_broker.Network.Groupify.{call}

-- `find` of a list.
abbrev pub find : (Group → Bool) → List Group → Option Group
find test [] = none
find test (group ∷ groups) = if test group then some group else find test groups

unfoldable pub groups : List IndexItem → Option (List Group)
unfolding call
groups index_items = call index_items

-- The outer `none` is the one of `call`; the inner one is the `nil` of `find`.
unfoldable pub find_group_containing : Pacticipant → List IndexItem → Option (Option Group)
unfolding groups include_pacticipant
find_group_containing pacticipant index_items = elim (groups index_items) [
  | none ↦ none
  | some all ↦ some (find (λ group. include_pacticipant group pacticipant) all)
]
