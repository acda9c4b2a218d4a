-- ===== src/Network/Groupify/Groups.antt =====
-- What `Groupify.call` promises.
use pact_broker.Prelude.{
  ◌≡◌, ◌↔◌, inl, inr, some, List, [], length, arith, append-nil, subst, concat,
}
use mathlib.Core.List.{Memᴰ}
use mathlib.Core.List.Memᴰ
use pact_broker.Network.{IndexItem, Group}
use pact_broker.Network.Groupify.{call}
use pact_broker.Network.Groupify.Distinct.{Distinct}
use pact_broker.Network.Groupify.Grown.{Chain}
use pact_broker.Network.Groupify.Split.{Splits, recurse_groups-Splits, recurse_groups_returns}

-- `call` returns, whatever the items are: the fuel of its loops is enough.
pub call_returns : (items : List IndexItem) → (groups : List Group) × (call items ≡ some groups)
unfolding call
call_returns items = recurse_groups_returns (length items) [] items (omega arith)

call-Splits :
    (items : List IndexItem) {groups : List Group}
    → Distinct items
    → call items ≡ some groups
    → Splits items groups []
unfolding call
call-Splits items distinct h =
    recurse_groups-Splits items (length items) [] items
      (record {
        single = distinct;
        covers = λ x m. inr m;
        inside = λ x m. absurd (Memᴰ.not-nil m);
        others = λ x m. m;
        shut = λ x y m n e. n;
        wholes = λ g k. absurd (Memᴰ.not-nil k);
        filled = λ g k. absurd (Memᴰ.not-nil k);
      })
      h

-- Where no object is in the index twice, the groups hold just the items of the index, each once; no group
-- is empty.
pub call-Distinct :
    (items : List IndexItem)
    → Distinct items
    → (groups : List Group) × (call items ≡ some groups)
      × Distinct (concat groups)
      × ((x : IndexItem) → Memᴰ x items ↔ Memᴰ x (concat groups))
      × ((group : Group) → Memᴰ group groups → (x : IndexItem) × Memᴰ x group)
call-Distinct items distinct =
    let (groups, h) = call_returns items in
    let s = call-Splits items distinct h in
    (
      groups,
      h,
      subst Distinct (append-nil (concat groups)) s.single,
      λ x. (
        λ m. elim (s.covers x m) [ inl old ↦ old | inr left ↦ absurd (Memᴰ.not-nil left) ],
        s.inside x,
      ),
      s.filled,
    )

-- Where no object is in the index twice: an item of the index is in the group of another just if a chain of
-- connections through items of the index leads from this to it.
pub call-Chain :
    (items : List IndexItem) (x y : IndexItem) {groups : List Group} {group : Group}
    → Distinct items
    → call items ≡ some groups
    → Memᴰ group groups
    → Memᴰ x group
    → Memᴰ y items
    → Memᴰ y group ↔ Chain items x y
call-Chain items x y {groups} {group} distinct h k m n =
    (call-Splits items distinct h).wholes group k x y m n
