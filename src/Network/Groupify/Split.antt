-- ===== src/Network/Groupify/Split.antt =====
-- `Groupify.call` splits the items into the groups that are connected.
use pact_broker.Prelude.{
  ℕ, zero, suc, ◌≤◌, ◌≡◌, ◌↔◌, ◌⊎◌, inl, inr, refl, true, sym, subst, ap, ◌∙◌, some, List, [], ◌∷◌,
  ◌++◌, length, arith, append_assoc, append-nil, concat, is_absent, some_inj,
}
use mathlib.Core.List.{Memᴰ}
use mathlib.Core.List.Memᴰ
use pact_broker.Network.{IndexItem, connected, Group}
use pact_broker.Network.Groupify.{subtract, recurse_groups}
use pact_broker.Network.Groupify.Pass.{connected_comm}
use pact_broker.Network.Groupify.Grown.{
  Chain, here, onward, grow_returns, grow_keeps, IsWhole, grow-IsWhole,
}
use pact_broker.Network.Groupify.Chains.{Chain-between, Chain-weaken}
use pact_broker.Network.Groupify.Distinct.{
  Distinct, length-subtract-lt, split-subtract, subtract-Memᴰ, subtract-Apart, Distinct-subtract,
  Distinct-append, Distinct-left, Distinct-right, Distinct-Apart,
}

concat-snoc :
    (groups : List Group) (group : Group) → concat (groups ++ group ∷ []) ≡ concat groups ++ group
concat-snoc [] group = append-nil group
concat-snoc (g ∷ groups) group =
    ap (λ l. g ++ l) (concat-snoc groups group) ∙ sym (append_assoc g (concat groups) group)

module _ (items : List IndexItem) where
  -- The groups so far, and the pool of items that are left.
  pub record Splits (groups : List Group) (pool : List IndexItem) : Type 0 where
    pub single : Distinct (concat groups ++ pool)
    pub covers : (x : IndexItem) → Memᴰ x items → Memᴰ x (concat groups) ⊎ Memᴰ x pool
    pub inside : (x : IndexItem) → Memᴰ x (concat groups) → Memᴰ x items
    pub others : (x : IndexItem) → Memᴰ x pool → Memᴰ x items
    pub shut : (x y : IndexItem) → Memᴰ x pool → Memᴰ y items → connected x y ≡ true → Memᴰ y pool
    pub wholes :
        (group : Group)
        → Memᴰ group groups
        → (x y : IndexItem) → Memᴰ x group
        → Memᴰ y items
        → Memᴰ y group ↔ Chain items x y
    pub filled : (group : Group) → Memᴰ group groups → (x : IndexItem) × Memᴰ x group

  module _ (groups : List Group) (first : IndexItem) (rest : List IndexItem) (group : Group)
      (s : Splits groups (first ∷ rest)) (w : IsWhole (first ∷ rest) first group) where
    chain_within : (x y : IndexItem) → Memᴰ x group → Chain items x y → Memᴰ y group
    chain_within x y m here = m
    chain_within x y m (onward {x = z} c n e) =
        let before = chain_within x z m c in
        w.closed z y before (s.shut z y (w.inside z before) n e) e

    new_whole : (x y : IndexItem) → Memᴰ x group → Memᴰ y items → Memᴰ y group ↔ Chain items x y
    new_whole x y m n = (
      λ k.
          Chain-weaken (first ∷ rest) items x y s.others (
            Chain-between (first ∷ rest) first x y (Memᴰ.head refl) (w.chained x m)
              (w.chained y k)),
      chain_within x y m,
    )

    pool-Distinct : Distinct (first ∷ rest)
    pool-Distinct = Distinct-right (concat groups) (first ∷ rest) s.single

    next_single : Distinct ((concat groups ++ group) ++ subtract (first ∷ rest) group)
    next_single =
        let pool = first ∷ rest in
        let left = subtract pool group in
        Distinct-append (concat groups ++ group) left
          (Distinct-append (concat groups) group (Distinct-left (concat groups) pool s.single)
            w.single (λ x y m n. Distinct-Apart (concat groups) pool x y s.single m (w.inside y n)))
          (Distinct-subtract pool group pool-Distinct)
          (λ x y m n. elim (Memᴰ.append_cases (concat groups) m) [
            | inl old ↦
                Distinct-Apart (concat groups) pool x y s.single old
                  ((subtract-Memᴰ pool group y).0 n).0
            | inr new ↦ subtract-Apart pool group x y new n
          ])

    next_shut :
        (x y : IndexItem)
        → Memᴰ x (subtract (first ∷ rest) group)
        → Memᴰ y items
        → connected x y ≡ true
        → Memᴰ y (subtract (first ∷ rest) group)
    next_shut x y m n e =
        let pool = first ∷ rest in
        let waits = ((subtract-Memᴰ pool group x).0 m).0 in
        let there = s.shut x y waits n e in
        elim (split-subtract pool pool group y pool-Distinct w.inside there there) [
          | inl new ↦
              absurd (
                subtract-Apart pool group x x (w.closed y x new waits (connected_comm x y e)) m
                  refl)
          | inr left ↦ left
        ]

    next_Splits : Splits (groups ++ group ∷ []) (subtract (first ∷ rest) group)
    next_Splits =
        let pool = first ∷ rest in
        let all = concat-snoc groups group in
        record {
          single = subst (λ l. Distinct (l ++ subtract pool group)) (sym all) next_single;
          covers = λ x m. elim (s.covers x m) [
            | inl old ↦ inl (subst (Memᴰ x) (sym all) (Memᴰ.append_left group old))
            | inr waits ↦
                elim (split-subtract pool pool group x pool-Distinct w.inside waits waits) [
                  | inl new ↦ inl (subst (Memᴰ x) (sym all) (Memᴰ.append_right (concat groups) new))
                  | inr left ↦ inr left
                ]
          ];
          inside = λ x m. elim (Memᴰ.append_cases (concat groups) (subst (Memᴰ x) all m)) [
            | inl old ↦ s.inside x old
            | inr new ↦ s.others x (w.inside x new)
          ];
          others = λ x m. s.others x ((subtract-Memᴰ pool group x).0 m).0;
          shut = next_shut;
          wholes = λ g k x y. elim (Memᴰ.append_cases groups k) [
            | inl old ↦ s.wholes g old x y
            | inr new ↦
                subst (λ h. Memᴰ x h → Memᴰ y items → Memᴰ y h ↔ Chain items x y)
                  (sym (Memᴰ.eq_of_singleton new)) (new_whole x y)
          ];
          filled = λ g k. elim (Memᴰ.append_cases groups k) [
            | inl old ↦ s.filled g old
            | inr new ↦ (first, subst (Memᴰ first) (sym (Memᴰ.eq_of_singleton new)) w.begins)
          ];
        }

  pub recurse_groups-Splits :
      (fuel : ℕ) (groups : List Group) (pool : List IndexItem) {split : List Group}
      → Splits groups pool
      → recurse_groups fuel groups pool ≡ some split
      → Splits split []
  unfolding recurse_groups
  recurse_groups-Splits fuel groups [] s h = subst (λ g. Splits g []) (some_inj h) s
  recurse_groups-Splits zero groups (first ∷ rest) s h = absurd (is_absent h)
  recurse_groups-Splits (suc fuel) groups (first ∷ rest) s h =
      let (group, grown) = grow_returns (suc (length rest)) (first ∷ []) rest (omega arith) in
      let w =
        grow-IsWhole first rest (Distinct-right (concat groups) (first ∷ rest) s.single) grown in
      recurse_groups-Splits fuel (groups ++ group ∷ []) (subtract (first ∷ rest) group)
        (next_Splits groups first rest group s w) (rw (recurse_groups, grown) at h)

pub recurse_groups_returns :
    (fuel : ℕ) (groups : List Group) (pool : List IndexItem)
    → length pool ≤ fuel
    → (split : List Group) × (recurse_groups fuel groups pool ≡ some split)
unfolding recurse_groups
recurse_groups_returns fuel groups [] h = (groups, refl)
recurse_groups_returns zero groups (first ∷ rest) h = absurd (omega arith)
recurse_groups_returns (suc fuel) groups (first ∷ rest) h =
    let (group, grown) = grow_returns (suc (length rest)) (first ∷ []) rest (omega arith) in
    let shorter =
      length-subtract-lt (first ∷ rest) group first (Memᴰ.head refl)
        (grow_keeps (suc (length rest)) (first ∷ []) rest first (Memᴰ.head refl) grown) in
    let (split, e) =
      recurse_groups_returns fuel (groups ++ group ∷ []) (subtract (first ∷ rest) group)
        (omega arith) in
    (split, rw (recurse_groups, grown) e)
