-- ===== src/CanIDeploy/Ignoring/Monotone.antt =====
-- Ignoring selectors.
use pact_broker.Prelude.{
  ◌≡◌, refl, sym, ap, ap₂, ◌∙◌, Bool, true, false, not, ◌&&◌, ◌||◌, Option, none, some, List, [],
  ◌∷◌, ◌++◌, map, keep, any, any-append, append_assoc, append-nil, arith, Bool-cases, inl, inr,
  if◌then◌else◌,
}
use pact_broker.CanIDeploy.{
  ResolvedSelector, SelectorType, Pacticipant, Version, Row, Integration, Options, QueryResults,
  rows, specified_version_that_does_not_exist, version_exists, is_specified,
  matches_pacticipant_ids,
}
use pact_broker.CanIDeploy.Summary.{
  fails, is_unknown, deployable, row_exists_for_integration, required_integrations_without_a_row,
  considered_specified_selectors_that_do_not_exist,
}
use pact_broker.CanIDeploy.Summary.Lists.{has_any, has_any-keep}
use pact_broker.CanIDeploy.Summary.Answers.{answer}
use pact_broker.CanIDeploy.Summary.Told.{nonexistent, deployable-answer}
use pact_broker.CanIDeploy.Ignoring.{
  UnresolvedSelector, Resolution, selector_for_version, several, ignore_row, split_each,
  split_rows_into_considered_and_ignored, resolve, results, build_resolved_selectors,
  selector_for_found_version, selector_for_non_existing_version,
  selector_for_all_versions_of_a_pacticipant,
}

split_each_lem :
    (ignores : List ResolvedSelector) (rows considered ignored : List Row)
    → split_each ignores rows (considered, ignored) ≡ (
      considered ++ keep (λ row. not (ignore_row ignores row)) rows,
      ignored ++ keep (ignore_row ignores) rows,
    )
unfolding split_each
split_each_lem ignores [] considered ignored =
    ap₂ (λ (x y : List Row). (x, y)) (sym (append-nil considered)) (sym (append-nil ignored))
split_each_lem ignores (row ∷ rows) considered ignored =
    elim (Bool-cases (ignore_row ignores row)) [
      | inl left_out ↦ rw left_out (
          split_each_lem ignores rows considered (ignored ++ row ∷ [])
          ∙ ap
              (λ (y : List Row). (considered ++ keep (λ row. not (ignore_row ignores row)) rows, y))
              (append_assoc ignored (row ∷ []) (keep (ignore_row ignores) rows)))
      | inr stays ↦ rw stays (
          split_each_lem ignores rows (considered ++ row ∷ []) ignored
          ∙ ap (λ (x : List Row). (x, ignored ++ keep (ignore_row ignores) rows))
              (append_assoc considered (row ∷ [])
                (keep (λ row. not (ignore_row ignores row)) rows)))
    ]

keep_none : (rows : List Row) → keep (ignore_row []) rows ≡ []
unfolding ignore_row
keep_none [] = refl
keep_none (row ∷ rows) = keep_none rows

keep_rest : (rows : List Row) → keep (λ row. not (ignore_row [] row)) rows ≡ rows
unfolding ignore_row
keep_rest [] = refl
keep_rest (row ∷ rows) = ap (λ (l : List Row). row ∷ l) (keep_rest rows)

-- With or without ignore selectors, the rows are split by whether they are ignored.
split_lem :
    (rows : List Row) (ignores : List ResolvedSelector)
    → split_rows_into_considered_and_ignored rows ignores
      ≡ (keep (λ row. not (ignore_row ignores row)) rows, keep (ignore_row ignores) rows)
unfolding split_rows_into_considered_and_ignored
split_lem rows [] = ap₂ (λ (x y : List Row). (x, y)) (sym (keep_rest rows)) (sym (keep_none rows))
split_lem rows (s ∷ ignores) = split_each_lem (s ∷ ignores) rows [] []

any_kept {ℓ} :
    {A : Type ℓ} (p r : A → Bool) (xs : List A) → any p xs ≡ false → any p (keep r xs) ≡ false
any_kept p r [] h = refl
any_kept p r (x ∷ xs) h = ground (arith, any_kept p r xs)

any_both {ℓ} :
    {A : Type ℓ} (p r : A → Bool) (xs : List A)
    → any p (keep (λ x. not (r x)) xs ++ keep r xs) ≡ any p xs
any_both {A = A} p r xs = any-append p (keep (λ x. not (r x)) xs) (keep r xs) ∙ either_part xs
  where
    either_part : (xs : List A) → (any p (keep (λ x. not (r x)) xs) || any p (keep r xs)) ≡ any p xs
    either_part [] = refl
    either_part (x ∷ xs) = ground (arith, either_part xs)

keep_same {ℓ} :
    {A : Type ℓ} (p r : A → Bool) (xs : List A) → ((x : A) → p x ≡ r x) → keep p xs ≡ keep r xs
keep_same p r [] h = refl
keep_same p r (x ∷ xs) h = rw (h x) (ap (λ l. if r x then x ∷ l else l) (keep_same p r xs h))

-- A selector that blocks the answer by itself.
blocks : ResolvedSelector → Bool
blocks s = not s.ignore && specified_version_that_does_not_exist s

any-keep-blocks :
    (xs : List ResolvedSelector)
    → any specified_version_that_does_not_exist (keep (λ s. not s.ignore) xs) ≡ any blocks xs
unfolding blocks
any-keep-blocks [] = refl
any-keep-blocks (s ∷ xs) = ground (arith, any-keep-blocks xs)

any-map_lesser {ℓ} :
    {A : Type ℓ} (f g : A → ResolvedSelector) (xs : List A)
    → ((x : A) → blocks (f x) ≡ false → blocks (g x) ≡ false)
    → any blocks (map f xs) ≡ false
    → any blocks (map g xs) ≡ false
any-map_lesser f g [] h e = refl
any-map_lesser f g (x ∷ xs) h e = ground (arith, h x, any-map_lesser f g xs h)

freed : (b c : Bool) → (not false && c) ≡ false → (not b && c) ≡ false
freed b c h = ground arith

module _ (ignores : List ResolvedSelector) where
  version_lesser :
      (p : Pacticipant) (u : UnresolvedSelector) (type : SelectorType) (one_of_many : Bool)
      (version : Option Version)
      → blocks (selector_for_version p u type one_of_many [] version) ≡ false
      → blocks (selector_for_version p u type one_of_many ignores version) ≡ false
  unfolding selector_for_version selector_for_found_version selector_for_non_existing_version blocks
      specified_version_that_does_not_exist version_exists is_specified
  version_lesser p u type one_of_many none h =
      let s = selector_for_non_existing_version p u type ignores in
      freed s.ignore (specified_version_that_does_not_exist s) h
  version_lesser p u type one_of_many (some v) h =
      let s = selector_for_found_version p v u type one_of_many ignores in
      freed s.ignore (specified_version_that_does_not_exist s) h

  all_versions_lesser :
      (p : Pacticipant) (u : UnresolvedSelector) (type : SelectorType)
      → blocks (selector_for_all_versions_of_a_pacticipant p u type []) ≡ false
      → blocks (selector_for_all_versions_of_a_pacticipant p u type ignores) ≡ false
  unfolding selector_for_all_versions_of_a_pacticipant blocks specified_version_that_does_not_exist
      version_exists is_specified
  all_versions_lesser p u type h =
      let s = selector_for_all_versions_of_a_pacticipant p u type ignores in
      freed s.ignore (specified_version_that_does_not_exist s) h

  build_lesser :
      (p : Pacticipant) (versions : Option (List (Option Version))) (u : UnresolvedSelector)
      (type : SelectorType)
      → any blocks (build_resolved_selectors p versions u type []) ≡ false
      → any blocks (build_resolved_selectors p versions u type ignores) ≡ false
  unfolding build_resolved_selectors
  build_lesser p none u type h = ground (arith, all_versions_lesser p u type)
  build_lesser p (some versions) u type h =
      any-map_lesser (selector_for_version p u type (several versions) [])
        (selector_for_version p u type (several versions) ignores) versions
        (version_lesser p u type (several versions)) h

  resolve_lesser :
      (resolutions : List Resolution)
      → any blocks (resolve [] resolutions) ≡ false
      → any blocks (resolve ignores resolutions) ≡ false
  unfolding resolve
  resolve_lesser [] h = refl
  resolve_lesser (r ∷ rest) h = ground (
    arith,
    any-append blocks (build_resolved_selectors r.found r.versions r.original r.kind [])
        (resolve [] rest),
    any-append blocks (build_resolved_selectors r.found r.versions r.original r.kind ignores)
        (resolve ignores rest),
    build_lesser r.found r.versions r.original r.kind,
    resolve_lesser rest,
  )

clear :
    (n m f u : Bool)
    → answer n m f u ≡ some true
    → (n ≡ false) × (m ≡ false) × (f ≡ false) × (u ≡ false)
unfolding answer
clear n m f u h = ground arith

module _ (resolutions : List Resolution) (matrix : List Row) (options : Options)
    (integrations : List Integration) (ignores : List ResolvedSelector) where
  abbrev asked : List ResolvedSelector → QueryResults
  asked = results resolutions matrix options integrations

  considered_lem :
      (i : List ResolvedSelector)
      → (asked i).considered_rows ≡ keep (λ row. not (ignore_row i row)) matrix
  unfolding results
  considered_lem i = ap (λ split. split.0) (split_lem matrix i)

  ignored_lem : (i : List ResolvedSelector) → (asked i).ignored_rows ≡ keep (ignore_row i) matrix
  unfolding results
  ignored_lem i = ap (λ split. split.1) (split_lem matrix i)

  any-rows : (p : Row → Bool) (i : List ResolvedSelector) → any p (rows (asked i)) ≡ any p matrix
  any-rows p i =
      ap (λ l. any p l) (ap₂ (λ (x y : List Row). x ++ y) (considered_lem i) (ignored_lem i))
      ∙ any_both p (ignore_row i) matrix

  required_same :
      required_integrations_without_a_row (asked ignores)
      ≡ required_integrations_without_a_row (asked [])
  unfolding required_integrations_without_a_row row_exists_for_integration results
  required_same = keep_same _ _ (keep (λ (i : Integration). i.required) integrations) (λ i. ap not (
      any-rows (matches_pacticipant_ids i) ignores ∙ sym (any-rows (matches_pacticipant_ids i) [])))

  considered_first : (asked []).considered_rows ≡ matrix
  considered_first = considered_lem [] ∙ keep_rest matrix

  test_lesser :
      (p : Row → Bool)
      → any p (asked []).considered_rows ≡ false
      → any p (asked ignores).considered_rows ≡ false
  test_lesser p h =
      ap (λ l. any p l) (considered_lem ignores)
      ∙ any_kept p (λ row. not (ignore_row ignores row)) matrix
          (ap (λ l. any p l) (sym considered_first) ∙ h)

  nonexistent_lesser : nonexistent (asked []) ≡ false → nonexistent (asked ignores) ≡ false
  unfolding considered_specified_selectors_that_do_not_exist results
  nonexistent_lesser h =
      nonexistent_blocks ignores
      ∙ resolve_lesser ignores resolutions (sym (nonexistent_blocks []) ∙ h)
    where
      nonexistent_blocks :
          (i : List ResolvedSelector) → nonexistent (asked i) ≡ any blocks (resolve i resolutions)
      nonexistent_blocks i =
          has_any-keep specified_version_that_does_not_exist
            (keep (λ s. not s.ignore) (resolve i resolutions))
          ∙ any-keep-blocks (resolve i resolutions)

  -- Ignoring selectors does not turn a yes into anything else.
  pub deployable-results :
      deployable (asked []) ≡ some true → deployable (asked ignores) ≡ some true
  unfolding answer
  deployable-results h =
      let before = sym (deployable-answer (asked [])) ∙ h in
      let (n, m, f, u) = clear _ _ _ _ before in
      deployable-answer (asked ignores)
      ∙ rw
          (
            nonexistent_lesser n,
            ap has_any required_same ∙ m,
            test_lesser fails f,
            test_lesser is_unknown u,
          )
          refl
