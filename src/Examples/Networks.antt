-- ===== src/Examples/Networks.antt =====
-- The groups of lib/pact_broker/relationships/groupify.rb at the items of its own test.
use pact_broker.Prelude.{ℕ, ◌≡◌, ◌↔◌, refl, Option, some, List, [], ◌∷◌, concat, arith}
use mathlib.Core.List.{Memᴰ}
use pact_broker.Network.{IndexItem, Group, connected, includes}
use pact_broker.Network.Groupify.{call, recurse_groups, grow, pass, offer, subtract}
use pact_broker.Network.Groupify.Distinct.{Distinct}
use pact_broker.Network.Groupify.Grown.{Chain}
use pact_broker.Network.Groupify.Groups.{call_returns, call-Distinct, call-Chain}
use pact_broker.Network.Service.{find_group_containing}
use pact_broker.Network.Service.Found.{Answers, find_group_containing-Answers}

abbrev item : (object consumer provider : ℕ) → IndexItem
item object consumer provider = record {
  object = object;
  consumer = record { id = consumer };
  provider = record { id = provider };
}

-- Relationships 1 to 6 of the test, in its order: 1 and 4 share a consumer, 4 and 2 a provider.
abbrev relationships : List IndexItem
relationships = item 1 1 7 ∷ item 2 2 8 ∷ item 3 3 9 ∷ item 4 1 8 ∷ item 5 4 6 ∷ item 6 5 6 ∷ []

abbrev expected : List Group
expected =
    (item 1 1 7 ∷ item 4 1 8 ∷ item 2 2 8 ∷ [])
    ∷ (item 3 3 9 ∷ [])
    ∷ (item 5 4 6 ∷ item 6 5 6 ∷ [])
    ∷ []

call-relationships : call relationships ≡ some expected
unfolding call recurse_groups grow pass offer subtract connected includes
call-relationships = refl

relationships-Distinct : Distinct relationships
relationships-Distinct = ground arith

call_returns_example : (groups : List Group) × (call relationships ≡ some groups)
call_returns_example = call_returns relationships

call-Distinct_example :
    (groups : List Group) × (call relationships ≡ some groups)
    × Distinct (concat groups)
    × ((x : IndexItem) → Memᴰ x relationships ↔ Memᴰ x (concat groups))
    × ((group : Group) → Memᴰ group groups → (x : IndexItem) × Memᴰ x group)
call-Distinct_example = call-Distinct relationships relationships-Distinct

-- The second relationship is in the group of the first, by way of the fourth.
call-Chain_example :
    Memᴰ (item 2 2 8) (item 1 1 7 ∷ item 4 1 8 ∷ item 2 2 8 ∷ [])
    ↔ Chain relationships (item 1 1 7) (item 2 2 8)
call-Chain_example =
    call-Chain relationships (item 1 1 7) (item 2 2 8) relationships-Distinct call-relationships
      (Memᴰ.head refl) (Memᴰ.head refl) (Memᴰ.tail (Memᴰ.head refl))

find_group_containing-Answers_example :
    (found : Option Group) × (find_group_containing (record { id = 6 }) relationships ≡ some found)
    × Answers relationships (record { id = 6 }) found
find_group_containing-Answers_example =
    find_group_containing-Answers relationships (record { id = 6 }) relationships-Distinct
