-- ===== src/Network/Groupify.antt =====
-- `Groupify.call` of lib/pact_broker/relationships/groupify.rb: the items of the index in groups that are
-- not connected to each other. Its loops run on fuel; running out of it is `none`.
pub mod Distinct
pub mod Pass
pub mod Grown
pub mod Chains
pub mod Split
pub mod Groups
use pact_broker.Prelude.{
  ℕ, zero, suc, Bool, true, false, not, Option, none, some, List, [], ◌∷◌, ◌++◌, length, any, keep,
  ◌==◌, if◌then◌else◌,
}
use pact_broker.Network.{IndexItem, connected, Group}

-- `xs - ys` for lists of objects, which are compared by identity.
unfoldable pub subtract : List IndexItem → List IndexItem → List IndexItem
subtract xs ys = keep (λ x. not (any (λ y. y.object == x.object) ys)) xs

-- The block of `inject`: the group so far with `new_connections`, and a candidate.
unfoldable pub offer : Group × Bool → IndexItem → Group × Bool
offer (group, new_connections) candidate =
    if any (λ item. connected item candidate) group
    then (group ++ candidate ∷ [], true)
    else (group, new_connections)

-- `rest.inject(group)`
unfoldable pub pass : Group × Bool → List IndexItem → Group × Bool
unfolding offer
pass state [] = state
pass state (candidate ∷ rest) = pass (offer state candidate) rest

-- `while new_connections`: the group with all that is connected to it. The result of `group.uniq` is
-- not used.
unfoldable pub grow : (fuel : ℕ) → Group → List IndexItem → Option Group
unfolding pass subtract
grow zero group rest = none
grow (suc fuel) group rest =
    let (next, new_connections) = pass (group, false) rest in
    let later = grow fuel next (subtract rest next) in if new_connections then later else some next

-- `recurse_groups`, with a round of the loop for each item of the rest and one more.
unfoldable pub recurse_groups : (fuel : ℕ) → List Group → List IndexItem → Option (List Group)
unfolding grow subtract
recurse_groups fuel groups [] = some groups
recurse_groups zero groups (first ∷ rest) = none
recurse_groups (suc fuel) groups (first ∷ rest) =
    elim (grow (suc (length rest)) (first ∷ []) rest) [
      | none ↦ none
      | some group ↦ recurse_groups fuel (groups ++ group ∷ []) (subtract (first ∷ rest) group)
    ]

unfoldable pub call : List IndexItem → Option (List Group)
unfolding recurse_groups
call index_items = recurse_groups (length index_items) [] index_items
