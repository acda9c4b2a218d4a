-- ===== src/Network/Groupify/Pass.antt =====
-- One pass over the items that are left: what it adds, and what it means that it adds nothing.
use pact_broker.Prelude.{
  ◌≡◌, inl, inr, refl, subst, Bool, true, false, List, [], ◌∷◌, ◌++◌, any, arith, Bool-cases,
  any-Memᴰ, Memᴰ-any,
}
use mathlib.Core.List.{Memᴰ}
use mathlib.Core.List.Memᴰ
use pact_broker.Network.{IndexItem, connected, includes, Group}
use pact_broker.Network.Groupify.{offer, pass}

pub connected_comm : (x y : IndexItem) → connected x y ≡ true → connected y x ≡ true
unfolding connected includes
connected_comm x y h = ground arith

offer_adds :
    (g : Group) (n : Bool) (c : IndexItem)
    → any (λ item. connected item c) g ≡ true
    → offer (g, n) c ≡ (g ++ c ∷ [], true)
unfolding offer
offer_adds g n c h = rw h refl

offer_skips :
    (g : Group) (n : Bool) (c : IndexItem)
    → any (λ item. connected item c) g ≡ false
    → offer (g, n) c ≡ (g, n)
unfolding offer
offer_skips g n c h = rw h refl

-- What holds of a group and the candidates that are left, and is kept by each, holds after the pass.
pub pass_rule :
    (P : Group → List IndexItem → Type 0)
    → ((g : Group) (c : IndexItem) (rest : List IndexItem) (x : IndexItem)
        → Memᴰ x g
        → connected x c ≡ true
        → P g (c ∷ rest)
        → P (g ++ c ∷ []) rest)
    → ((g : Group) (c : IndexItem) (rest : List IndexItem) → P g (c ∷ rest) → P g rest)
    → (g : Group) (n : Bool) (rest : List IndexItem) → P g rest
    → P (pass (g, n) rest).0 []
unfolding pass
pass_rule P adds skips g n [] p = p
pass_rule P adds skips g n (c ∷ rest) p = elim (Bool-cases (any (λ item. connected item c) g)) [
  | inl found ↦
      let (x, m, e) = any-Memᴰ (λ item. connected item c) g found in
      rw (pass, offer_adds g n c found)
        (pass_rule P adds skips (g ++ c ∷ []) true rest (adds g c rest x m e p))
  | inr absent ↦
      rw (pass, offer_skips g n c absent) (pass_rule P adds skips g n rest (skips g c rest p))
]

pub pass_keeps :
    (g : Group) (n : Bool) (rest : List IndexItem) (x : IndexItem)
    → Memᴰ x g
    → Memᴰ x (pass (g, n) rest).0
pass_keeps g n rest x m =
    pass_rule (λ h _. Memᴰ x h) (λ h c _ y _ _. Memᴰ.append_left (c ∷ [])) (λ h c _ k. k) g n rest m

-- Once there was a new connection, the pass says so.
pass-true : (g : Group) (rest : List IndexItem) → (pass (g, true) rest).1 ≡ true
unfolding pass
pass-true g [] = refl
pass-true g (c ∷ rest) = elim (Bool-cases (any (λ item. connected item c) g)) [
  | inl found ↦ rw (pass, offer_adds g true c found) (pass-true (g ++ c ∷ []) rest)
  | inr absent ↦ rw (pass, offer_skips g true c absent) (pass-true g rest)
]

unconnected :
    (g : Group) (x y : IndexItem)
    → any (λ item. connected item y) g ≡ false
    → Memᴰ x g
    → connected x y ≡ true
    → ⊥
unconnected g x y absent m e = let found = Memᴰ-any (λ item. connected item y) x g m e in cc

-- A pass with no new connection leaves the group, to which no candidate is connected.
pub pass_quiet :
    (g : Group) (rest : List IndexItem)
    → (pass (g, false) rest).1 ≡ false
    → ((pass (g, false) rest).0 ≡ g)
      × ((x y : IndexItem) → Memᴰ x g → Memᴰ y rest → connected x y ≡ true → ⊥)
unfolding pass
pass_quiet g [] h = (refl, λ x y m n e. Memᴰ.not-nil n)
pass_quiet g (c ∷ rest) h = elim (Bool-cases (any (λ item. connected item c) g)) [
  | inl found ↦
      let new : (pass (g, false) (c ∷ rest)).1 ≡ true =
        rw (pass, offer_adds g false c found) (pass-true (g ++ c ∷ []) rest) in
      absurd cc
  | inr absent ↦
      let (same, apart) = pass_quiet g rest (rw (pass, offer_skips g false c absent) at h) in
      (
        rw (pass, offer_skips g false c absent) same,
        λ x y m n e. elim (Memᴰ.cases_cons n) [
          | inl here ↦ unconnected g x c absent m (subst (λ z. connected x z ≡ true) here e)
          | inr later ↦ apart x y m later e
        ],
      )
]

-- A pass with a new connection adds one of the candidates.
pub pass_adds :
    (g : Group) (rest : List IndexItem)
    → (pass (g, false) rest).1 ≡ true
    → (y : IndexItem) × Memᴰ y rest × Memᴰ y (pass (g, false) rest).0
unfolding pass
pass_adds g [] h = absurd cc
pass_adds g (c ∷ rest) h = elim (Bool-cases (any (λ item. connected item c) g)) [
  | inl found ↦ (
    c,
    Memᴰ.head refl,
    rw (pass, offer_adds g false c found)
        (pass_keeps (g ++ c ∷ []) true rest c (Memᴰ.append_right g (Memᴰ.head refl))),
  )
  | inr absent ↦
      let (y, m, n) = pass_adds g rest (rw (pass, offer_skips g false c absent) at h) in
      (y, Memᴰ.tail m, rw (pass, offer_skips g false c absent) n)
]
