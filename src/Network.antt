-- ===== src/Network.antt =====
-- The network of pacticipants as lib/pact_broker shows it: domain/index_item.rb, domain/group.rb, and the
-- groups of relationships/groupify.rb and groups/service.rb.
pub mod Groupify
pub mod Service
use pact_broker.Prelude.{ℕ, Bool, ◌||◌, List, any, ◌==◌}

-- A pacticipant, by the number of its row in the database.
pub record Pacticipant : Type 0 where
  pub id : ℕ

-- An item of the index: `object` is the identity of the Ruby object, by which lists of items are
-- subtracted. The data of its pact are not read here.
pub record IndexItem : Type 0 where
  pub object : ℕ
  pub consumer : Pacticipant
  pub provider : Pacticipant

-- `include?`
unfoldable pub includes : IndexItem → Pacticipant → Bool
includes item pacticipant = pacticipant.id == item.consumer.id || pacticipant.id == item.provider.id

-- `connected?`
unfoldable pub connected : IndexItem → IndexItem → Bool
unfolding includes
connected item other = includes item other.consumer || includes item other.provider

-- A group is a list of items; `include_pacticipant?`
abbrev pub Group : Type 0
Group = List IndexItem

unfoldable pub include_pacticipant : Group → Pacticipant → Bool
unfolding includes
include_pacticipant group pacticipant = any (λ item. includes item pacticipant) group
