-- ===== src/CanIDeploy/Summary/Named.antt =====
-- The selectors that the reasons of a summary name.
use pact_broker.Prelude.{
  ◌≡◌, refl, sym, subst, some_inj, ◌∙◌, ap, Bool, true, false, Option, none, some, String, List, [],
  ◌∷◌, map, str_eq, eq_iff, concat, Memᴰ-concat, Bool-cases, Option-cases, inl, inr,
}
use mathlib.Core.List.{Memᴰ}
use mathlib.Core.List.Memᴰ
use pact_broker.CanIDeploy.{
  Pacticipant, Version, QueryResults, ResolvedSelector, Row, Integration, for_pacticipant,
  for_pacticipant_and_version,
}
use pact_broker.CanIDeploy.Summary.{
  find, provider_selector, row_pair, integration_pair, dummy_selectors, selector_for,
}

-- A selector was found, for a pacticipant with a name.
abbrev pub Names : String → Option ResolvedSelector → Type 0
Names name found = (s : ResolvedSelector) × (found ≡ some s) × (s.pacticipant_name ≡ name)

clash : {b : Bool} → b ≡ true → b ≡ false → ⊥
clash h k = cc

find_one {ℓ} :
    {A : Type ℓ} (p : A → Bool) (a : A) (xs : List A)
    → Memᴰ a xs
    → p a ≡ true
    → (b : A) × (find p xs ≡ some b) × (p b ≡ true)
find_one p a [] m e = absurd (Memᴰ.not-nil m)
find_one p a (x ∷ xs) m e = elim (Bool-cases (p x)) [
  | inl here ↦ (x, rw here refl, here)
  | inr other ↦ elim (Memᴰ.cases_cons m) [
    | inl same ↦ absurd (clash (subst (λ y. p y ≡ true) same e) other)
    | inr later ↦ let (b, found, h) = find_one p a xs later e in (b, rw other found, h)
  ]
]

find-Names :
    (name : String) (xs : List ResolvedSelector) {s : ResolvedSelector}
    → find (λ s. str_eq s.pacticipant_name name) xs ≡ some s
    → s.pacticipant_name ≡ name
find-Names name [] h = absurd cc
find-Names name (x ∷ xs) {s} h = elim (Bool-cases (str_eq x.pacticipant_name name)) [
  | inl here ↦
      let same : x ≡ s = some_inj (rw here at h) in
      ap (λ (t : ResolvedSelector). t.pacticipant_name) (sym same)
      ∙ (eq_iff x.pacticipant_name name).0 here
  | inr other ↦ find-Names name xs (rw other at h)
]

provider_selector_name :
    (provider : Pacticipant) (version : Option Version)
    → (provider_selector provider version).pacticipant_name ≡ provider.name
unfolding provider_selector for_pacticipant for_pacticipant_and_version
provider_selector_name provider none = refl
provider_selector_name provider (some version) = refl

module _ (q : QueryResults) where
  selector_for-Names :
      (s : ResolvedSelector)
      → Memᴰ s (dummy_selectors q)
      → Names s.pacticipant_name (selector_for q s.pacticipant_name)
  unfolding selector_for
  selector_for-Names s m =
      let name = s.pacticipant_name in
      elim (Option-cases (find (λ s. str_eq s.pacticipant_name name) q.resolved_selectors)) [
        | inl absent ↦
            let (d, found, h) =
              find_one (λ s. str_eq s.pacticipant_name name) s (dummy_selectors q) m
                ((eq_iff name name).1 refl) in
            (d, rw (selector_for, absent, found) refl, (eq_iff d.pacticipant_name name).0 h)
        | inr (d, found) ↦
            (d, rw (selector_for, found) refl, find-Names name q.resolved_selectors found)
      ]

  named_dummy :
      (name : String) (s : ResolvedSelector)
      → s.pacticipant_name ≡ name
      → Memᴰ s (dummy_selectors q)
      → Names name (selector_for q name)
  named_dummy name s e m = subst (λ n. Names n (selector_for q n)) e (selector_for-Names s m)

  -- The selectors for a row are there, by its dummy selectors if by no other.
  pub row_Names :
      (row : Row)
      → Memᴰ row q.considered_rows
      → Names row.consumer.name (selector_for q row.consumer.name)
        × Names row.provider.name (selector_for q row.provider.name)
  unfolding dummy_selectors row_pair for_pacticipant_and_version for_pacticipant
  row_Names row m =
      let there = λ (s : ResolvedSelector) (n : Memᴰ s (row_pair row)).
        Memᴰ.append_left (concat (map integration_pair q.integrations))
          (Memᴰ-concat s (map row_pair q.considered_rows) (Memᴰ.map row_pair m) n) in
      let consumer = for_pacticipant_and_version row.consumer row.consumer_version in
      let provider = provider_selector row.provider row.provider_version in
      (
        named_dummy row.consumer.name consumer refl (there consumer (Memᴰ.head refl)),
        named_dummy row.provider.name provider
            (provider_selector_name row.provider row.provider_version)
            (there provider (Memᴰ.tail (Memᴰ.head refl))),
      )

  pub integration_Names :
      (i : Integration)
      → Memᴰ i q.integrations
      → Names i.consumer.name (selector_for q i.consumer.name)
        × Names i.provider.name (selector_for q i.provider.name)
  unfolding dummy_selectors integration_pair for_pacticipant
  integration_Names i m =
      let there = λ (s : ResolvedSelector) (n : Memᴰ s (integration_pair i)).
        Memᴰ.append_right (concat (map row_pair q.considered_rows))
          (Memᴰ-concat s (map integration_pair q.integrations) (Memᴰ.map integration_pair m) n) in
      let consumer = for_pacticipant i.consumer in
      let provider = for_pacticipant i.provider in
      (
        named_dummy i.consumer.name consumer refl (there consumer (Memᴰ.head refl)),
        named_dummy i.provider.name provider refl (there provider (Memᴰ.tail (Memᴰ.head refl))),
      )
