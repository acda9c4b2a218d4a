-- ===== src/Network/Groupify/Grown.antt =====
-- The loop that grows a group: it ends, and the group is all that is connected to its first item.
use pact_broker.Prelude.{
  ℕ, zero, suc, ◌<◌, ◌≡◌, ◌⊎◌, inl, inr, refl, sym, subst, ◌∙◌, true, false, some, List, [], ◌∷◌,
  ◌++◌, length, arith, Bool-cases, append_assoc, is_absent, some_inj,
}
use mathlib.Core.List.{Memᴰ}
use mathlib.Core.List.Memᴰ
use pact_broker.Network.{IndexItem, connected, Group}
use pact_broker.Network.Groupify.{subtract, pass, grow}
use pact_broker.Network.Groupify.Pass.{pass_rule, pass_keeps, pass_quiet, pass_adds}
use pact_broker.Network.Groupify.Distinct.{
  Distinct, subtract-Memᴰ, length-subtract-lt, Distinct-subtract, Distinct-append, Distinct-left,
  Distinct-right, Distinct-skip, split-subtract, subtract-Apart,
}

-- The items that a chain of connections through items of the list leads to.
pub data Chain (items : List IndexItem) (start : IndexItem) : IndexItem → Type 0 where
  here : Chain items start start
  onward :
      {x y : IndexItem}
      → Chain items start x
      → Memᴰ y items
      → connected x y ≡ true
      → Chain items start y

-- More fuel than there are items left is enough.
pub grow_returns :
    (fuel : ℕ) (group rest : List IndexItem)
    → length rest < fuel
    → (grown : Group) × (grow fuel group rest ≡ some grown)
unfolding grow
grow_returns zero group rest h = absurd (omega arith)
grow_returns (suc fuel) group rest h = elim (Bool-cases (pass (group, false) rest).1) [
  | inl new ↦
      let next = (pass (group, false) rest).0 in
      let (y, m, n) = pass_adds group rest new in
      let shorter = length-subtract-lt rest next y m n in
      let (grown, e) = grow_returns fuel next (subtract rest next) (omega arith) in
      (grown, rw (grow, new) e)
  | inr quiet ↦ ((pass (group, false) rest).0, rw (grow, quiet) refl)
]

pub grow_keeps :
    (fuel : ℕ) (group rest : List IndexItem) (x : IndexItem) {grown : Group}
    → Memᴰ x group
    → grow fuel group rest ≡ some grown
    → Memᴰ x grown
unfolding grow
grow_keeps zero group rest x m h = absurd (is_absent h)
grow_keeps (suc fuel) group rest x m h =
    let next = (pass (group, false) rest).0 in
    let kept = pass_keeps group false rest x m in
    elim (Bool-cases (pass (group, false) rest).1) [
      | inl new ↦ grow_keeps fuel next (subtract rest next) x kept (rw (grow, new) at h)
      | inr quiet ↦ subst (Memᴰ x) (some_inj (rw (grow, quiet) at h)) kept
    ]

module _ (pool : List IndexItem) (start : IndexItem) where
  -- A group in the making and the items that may still join it.
  record Grows (group rest : List IndexItem) : Type 0 where
    begins : Memᴰ start group
    inside : (x : IndexItem) → Memᴰ x group → Memᴰ x pool
    others : (x : IndexItem) → Memᴰ x rest → Memᴰ x pool
    chained : (x : IndexItem) → Memᴰ x group → Chain pool start x
    single : Distinct (group ++ rest)

  adds-Grows :
      (g : Group) (c : IndexItem) (rest : List IndexItem) (x : IndexItem)
      → Memᴰ x g
      → connected x c ≡ true
      → Grows g (c ∷ rest)
      → Grows (g ++ c ∷ []) rest
  adds-Grows g c rest x m e w =
      let in_pool = w.others c (Memᴰ.head refl) in
      record {
        begins = Memᴰ.append_left (c ∷ []) w.begins;
        inside = λ y n. elim (Memᴰ.append_cases g n) [
          | inl old ↦ w.inside y old
          | inr last ↦ Memᴰ.cast (Memᴰ.eq_of_singleton last) in_pool
        ];
        others = λ y n. w.others y (Memᴰ.tail n);
        chained = λ y n. elim (Memᴰ.append_cases g n) [
          | inl old ↦ w.chained y old
          | inr last ↦
              subst (Chain pool start) (sym (Memᴰ.eq_of_singleton last))
                (onward (w.chained x m) in_pool e)
        ];
        single = subst Distinct (sym (append_assoc g (c ∷ []) rest)) w.single;
      }

  skips-Grows :
      (g : Group) (c : IndexItem) (rest : List IndexItem) → Grows g (c ∷ rest) → Grows g rest
  skips-Grows g c rest w = record {
    begins = w.begins;
    inside = w.inside;
    others = λ y n. w.others y (Memᴰ.tail n);
    chained = w.chained;
    single = Distinct-skip g c rest w.single;
  }

  pass-Grows :
      (g rest : List IndexItem)
      → Grows g rest
      → let next = (pass (g, false) rest).0 in Grows next (subtract rest next)
  pass-Grows g rest w =
      let next = (pass (g, false) rest).0 in
      let left = subtract rest next in
      let passed = pass_rule Grows adds-Grows skips-Grows g false rest w in
      record {
        begins = passed.begins;
        inside = passed.inside;
        others = λ y n. w.others y ((subtract-Memᴰ rest next y).0 n).0;
        chained = passed.chained;
        single =
            Distinct-append next left (Distinct-left next [] passed.single)
              (Distinct-subtract rest next (Distinct-right g rest w.single))
              (subtract-Apart rest next);
      }

  -- All that is connected to the first item, and no more, each once.
  pub record IsWhole (group : Group) : Type 0 where
    pub begins : Memᴰ start group
    pub inside : (x : IndexItem) → Memᴰ x group → Memᴰ x pool
    pub chained : (x : IndexItem) → Memᴰ x group → Chain pool start x
    pub single : Distinct group
    pub closed :
        (x y : IndexItem) → Memᴰ x group → Memᴰ y pool → connected x y ≡ true → Memᴰ y group

  rounds-IsWhole :
      (fuel : ℕ) (g rest : List IndexItem) {grown : Group}
      → Distinct pool
      → Grows g rest
      → ((x : IndexItem) → Memᴰ x pool → Memᴰ x g ⊎ Memᴰ x rest)
      → grow fuel g rest ≡ some grown
      → IsWhole grown
  unfolding grow
  rounds-IsWhole zero g rest distinct w covers h = absurd (is_absent h)
  rounds-IsWhole (suc fuel) g rest {grown} distinct w covers h =
      let next = (pass (g, false) rest).0 in
      let left = subtract rest next in
      elim (Bool-cases (pass (g, false) rest).1) [
        | inl new ↦
            let later = pass-Grows g rest w in
            rounds-IsWhole fuel next left distinct later
              (λ x m. elim (covers x m) [
                | inl old ↦ inl (pass_keeps g false rest x old)
                | inr waits ↦ split-subtract pool rest next x distinct later.inside m waits
              ])
              (rw (grow, new) at h)
        | inr quiet ↦
            let (same, apart) = pass_quiet g rest quiet in
            let is : g ≡ grown = sym same ∙ some_inj (rw (grow, quiet) at h) in
            subst IsWhole is (record {
              begins = w.begins;
              inside = w.inside;
              chained = w.chained;
              single = Distinct-left g rest w.single;
              closed = λ x y m n e. elim (covers y n) [
                | inl old ↦ old
                | inr waits ↦ absurd (apart x y m waits e)
              ];
            })
      ]

pub grow-IsWhole :
    (first : IndexItem) (rest : List IndexItem) {grown : Group}
    → Distinct (first ∷ rest)
    → grow (suc (length rest)) (first ∷ []) rest ≡ some grown
    → IsWhole (first ∷ rest) first grown
grow-IsWhole first rest distinct h =
    rounds-IsWhole (first ∷ rest) first (suc (length rest)) (first ∷ []) rest distinct
      (record {
        begins = Memᴰ.head refl;
        inside = λ x m. Memᴰ.head (Memᴰ.eq_of_singleton m);
        others = λ x m. Memᴰ.tail m;
        chained = λ x m. subst (Chain (first ∷ rest) first) (sym (Memᴰ.eq_of_singleton m)) here;
        single = distinct;
      })
      (λ x m. elim (Memᴰ.cases_cons m) [ inl e ↦ inl (Memᴰ.head e) | inr later ↦ inr later ]) h
