-- ===== src/Network/Service/Found.antt =====
-- Which group the service finds.
use pact_broker.Prelude.{
  ◌≡◌, ◌↔◌, inl, inr, refl, sym, subst, Memᴰ-concat, Bool, true, false, Option, none, some, List,
  [], ◌∷◌, arith, Bool-cases, any-Memᴰ, Memᴰ-any, concat-Memᴰ, concat,
}
use mathlib.Core.List.{Memᴰ}
use mathlib.Core.List.Memᴰ
use pact_broker.Network.{IndexItem, Pacticipant, Group, includes, connected, include_pacticipant}
use pact_broker.Network.Groupify.{call}
use pact_broker.Network.Groupify.Distinct.{Distinct}
use pact_broker.Network.Groupify.Grown.{Chain, here, onward}
use pact_broker.Network.Groupify.Groups.{call-Distinct, call-Chain}
use pact_broker.Network.Service.{find, groups, find_group_containing}

connected_both :
    (x y : IndexItem) (p : Pacticipant)
    → includes x p ≡ true
    → includes y p ≡ true
    → connected x y ≡ true
unfolding connected includes
connected_both x y p h k = ground arith

-- The first that passes the test, or none of them does.
abbrev IsFound : (Group → Bool) → List Group → Option Group → Type 0
IsFound test all none = (group : Group) → Memᴰ group all → test group ≡ false
IsFound test all (some group) = Memᴰ group all × (test group ≡ true)

IsFound-cons :
    (test : Group → Bool) (g : Group) (all : List Group) (found : Option Group)
    → test g ≡ false
    → IsFound test all found
    → IsFound test (g ∷ all) found
IsFound-cons test g all none e h = λ group k. elim (Memᴰ.cases_cons k) [
  | inl same ↦ subst (λ (x : Group). test x ≡ false) (sym same) e
  | inr later ↦ h group later
]
IsFound-cons test g all (some group) e h = (Memᴰ.tail h.0, h.1)

find-IsFound : (test : Group → Bool) (all : List Group) → IsFound test all (find test all)
find-IsFound test [] = λ g k. absurd (Memᴰ.not-nil k)
find-IsFound test (g ∷ all) = elim (Bool-cases (test g)) [
  | inl passes ↦ rw passes (Memᴰ.head refl, passes)
  | inr fails ↦ rw fails (IsFound-cons test g all (find test all) fails (find-IsFound test all))
]

-- The answer for a pacticipant: no item has it, or the group is what is connected to an item that has it,
-- with all items that have it.
abbrev pub Answers : List IndexItem → Pacticipant → Option Group → Type 0
Answers items p none = (x : IndexItem) → Memᴰ x items → includes x p ≡ false
Answers items p (some group) =
    ((x : IndexItem) → Memᴰ x items → includes x p ≡ true → Memᴰ x group)
    × ((y : IndexItem) × Memᴰ y items
        × (includes y p ≡ true)
        × ((x : IndexItem) → Memᴰ x items → Memᴰ x group ↔ Chain items y x))

module _ (items : List IndexItem) (p : Pacticipant) (distinct : Distinct items) (all : List Group)
    (h : call items ≡ some all) (same : (x : IndexItem) → Memᴰ x items ↔ Memᴰ x (concat all)) where
  found-Answers :
      (found : Option Group)
      → IsFound (λ group. include_pacticipant group p) all found
      → Answers items p found
  unfolding include_pacticipant
  found-Answers none absent = λ x m.
      let (group, k, n) = concat-Memᴰ x all ((same x).0 m) in
      elim (Bool-cases (includes x p)) [
        | inl has ↦
            let found = Memᴰ-any (λ item. includes item p) x group n has in
            let missing = absent group k in absurd cc
        | inr lacks ↦ lacks
      ]
  found-Answers (some group) (k, has_one) =
      let (y, n, has) = any-Memᴰ (λ item. includes item p) group has_one in
      let whole = λ (x : IndexItem) (m : Memᴰ x items). call-Chain items y x distinct h k n m in
      (
        λ x m e. (whole x m).1 (onward here m (connected_both y x p has e)),
        (y, (same y).1 (Memᴰ-concat y all k n), has, whole),
      )

-- Where no object is in the index twice, the service answers: with no group, and then no item of the index
-- has the pacticipant; or with a group that holds all items that have it, and is what chains of
-- connections lead to from one of them.
pub find_group_containing-Answers :
    (items : List IndexItem) (p : Pacticipant)
    → Distinct items
    → (found : Option Group) × (find_group_containing p items ≡ some found) × Answers items p found
unfolding find_group_containing groups
find_group_containing-Answers items p distinct =
    let (all, h, single, same, filled) = call-Distinct items distinct in
    (
      find (λ group. include_pacticipant group p) all,
      rw (find_group_containing, groups, h) refl,
      found-Answers items p distinct all h same _
          (find-IsFound (λ group. include_pacticipant group p) all),
    )
