-- ===== src/CanIDeploy/Summary/Held.antt =====
-- Each reason of a summary holds, and names the selectors that it is about.
use pact_broker.Prelude.{
  ◌≡◌, refl, Bool, true, false, not, ◌&&◌, ◌||◌, any-Memᴰ, Option, none, some, List, [], ◌∷◌, ◌++◌,
  map, keep, any, All, All-append, Memᴰ-keep, arith, if◌then◌else◌,
}
use mathlib.Core.List.{Memᴰ}
use pact_broker.CanIDeploy.{
  is_set, QueryResults, is_specified, only_pacticipant_name_specified, ResolvedSelector, Row,
  Integration, rows, specified_version_that_does_not_exist, pacticipant_or_version_does_not_exist,
}
use pact_broker.CanIDeploy.Summary.{
  Reason, pact_not_ever_verified_by_provider, pact_not_verified_by_required_provider_version,
  verification_failed, specified_version_does_not_exist, ignore_selector_does_not_exist,
  no_environment_specified, selector_without_pacticipant_version_number_specified, successful,
  no_dependencies_missing, no_to_tag_or_environment_specified,
  selector_without_pacticipant_version_number, all, succeeds, fails, is_unknown,
  row_exists_for_integration, selector_for, required_integrations_without_a_row,
  specified_selectors_do_not_exist_messages, missing_reasons, failure_messages,
  not_ever_verified_reasons, error_messages, bad_practice_warnings, warning_messages,
  success_messages, reasons,
}
use pact_broker.CanIDeploy.Summary.Named.{Names, row_Names, integration_Names}

-- What a reason says.
abbrev pub Holds : QueryResults → Reason → Type 0
Holds q (pact_not_ever_verified_by_provider c p) =
    (row : Row) × Memᴰ row q.considered_rows
    × (row.success ≡ none)
    × Names row.consumer.name c
    × Names row.provider.name p
Holds q (pact_not_verified_by_required_provider_version c p) =
    (i : Integration) × Memᴰ i q.integrations
    × (i.required ≡ true)
    × (row_exists_for_integration q i ≡ false)
    × Names i.consumer.name c
    × Names i.provider.name p
Holds q (verification_failed c p) =
    (row : Row) × Memᴰ row q.considered_rows
    × (row.success ≡ some false)
    × Names row.consumer.name c
    × Names row.provider.name p
Holds q (specified_version_does_not_exist s) =
    Memᴰ s q.resolved_selectors
    × (s.ignore ≡ false)
    × (specified_version_that_does_not_exist s ≡ true)
Holds q (ignore_selector_does_not_exist s) =
    Memᴰ s q.resolved_ignore_selectors × (pacticipant_or_version_does_not_exist s ≡ true)
Holds q no_environment_specified =
    (q.options.option_tag ≡ none) × (q.options.option_environment_name ≡ none)
Holds q selector_without_pacticipant_version_number_specified =
    (s : ResolvedSelector) × Memᴰ s q.resolved_selectors
    × (is_specified s ≡ true)
    × (only_pacticipant_name_specified s ≡ false)
    × (s.original_version_number ≡ none)
Holds q successful =
    (all succeeds q.considered_rows ≡ true) × (required_integrations_without_a_row q ≡ [])
Holds q no_dependencies_missing =
    (q.considered_rows ≡ []) × (required_integrations_without_a_row q ≡ [])

All-map_each {ℓ κ μ} :
    {A : Type ℓ} {B : Type κ} (P : B → Type μ) (f : A → B) (xs : List A)
    → ((x : A) → Memᴰ x xs → P (f x))
    → All P (map f xs)
All-map_each P f [] h = tt
All-map_each P f (x ∷ xs) h = (h x (Memᴰ.head refl), All-map_each P f xs (λ y m. h y (Memᴰ.tail m)))

first_of :
    (P : Reason → Type 0) (xs ys : List Reason)
    → All P xs
    → All P ys
    → All P (elim xs [ [] ↦ ys | m ∷ messages ↦ m ∷ messages ])
first_of P [] ys h k = k
first_of P (x ∷ xs) ys h k = h

not-true : {b : Bool} → not b ≡ true → b ≡ false
not-true h = ground arith

failure : (o : Option Bool) → (elim o [ none ↦ false | some b ↦ not b ]) ≡ true → o ≡ some false
failure none h = cc
failure (some true) h = cc
failure (some false) h = refl

unset : {A : Type 0} (o : Option A) → is_set o ≡ false → o ≡ none
unset none h = refl
unset (some b) h = cc

when :
    (P : Reason → Type 0) (r : Reason) (b : Bool)
    → (b ≡ true → P r)
    → All P (if b then r ∷ [] else [])
when P r true h = (h refl, tt)
when P r false h = tt

told :
    (P : Reason → Type 0) (good missing rows : Bool)
    → (good ≡ true → missing ≡ false → P successful)
    → (rows ≡ false → missing ≡ false → P no_dependencies_missing)
    → All P (
        if good && not missing
        then (if rows then successful ∷ [] else no_dependencies_missing ∷ [])
        else [])
told P true false true h k = (h refl refl, tt)
told P true false false h k = (k refl refl, tt)
told P true true rows h k = tt
told P false missing rows h k = tt

last_of :
    (P : Reason → Type 0) (errors warnings rest : List Reason)
    → All P errors
    → All P warnings
    → All P rest
    → All P (elim errors [ [] ↦ warnings ++ rest | m ∷ messages ↦ warnings ++ (m ∷ messages) ])
last_of P [] warnings rest h k l = All-append P warnings rest k l
last_of P (m ∷ messages) warnings rest h k l = All-append P warnings (m ∷ messages) k h

is_empty {ℓ} : {A : Type ℓ} (xs : List A) → any (λ x. true) xs ≡ false → xs ≡ []
is_empty [] h = refl
is_empty (x ∷ xs) h = cc

neither :
    {A B : Type 0} (a : Option A) (b : Option B)
    → not (is_set a || is_set b) ≡ true
    → (a ≡ none) × (b ≡ none)
neither none none h = (refl, refl)
neither none (some y) h = cc
neither (some x) b h = cc

module _ (q : QueryResults) where
  named_version :
      (s : ResolvedSelector)
      → Memᴰ s (
          keep
            (λ s. not s.ignore)
            (keep specified_version_that_does_not_exist q.resolved_selectors))
      → Holds q (specified_version_does_not_exist s)
  named_version s m =
      let absent = keep specified_version_that_does_not_exist q.resolved_selectors in
      let (n, considered) = (Memᴰ-keep (λ s. not s.ignore) s absent).0 m in
      let (listed, e) =
        (Memᴰ-keep specified_version_that_does_not_exist s q.resolved_selectors).0 n in
      (listed, not-true considered, e)

  missing_integration :
      (i : Integration)
      → Memᴰ i (required_integrations_without_a_row q)
      → Holds q (
          pact_not_verified_by_required_provider_version
            (selector_for q i.consumer.name)
            (selector_for q i.provider.name))
  unfolding required_integrations_without_a_row
  missing_integration i m =
      let required = keep (λ (i : Integration). i.required) q.integrations in
      let (n, absent) = (Memᴰ-keep (λ i. not (row_exists_for_integration q i)) i required).0 m in
      let (listed, e) = (Memᴰ-keep (λ (i : Integration). i.required) i q.integrations).0 n in
      let (consumer, provider) = integration_Names q i listed in
      (i, listed, e, not-true absent, consumer, provider)

  failed_row :
      (row : Row)
      → Memᴰ row (keep fails q.considered_rows)
      → Holds q (
          verification_failed (selector_for q row.consumer.name) (selector_for q row.provider.name))
  failed_row row m =
      let (listed, e) = (Memᴰ-keep fails row q.considered_rows).0 m in
      let (consumer, provider) = row_Names q row listed in
      (row, listed, failure row.success e, consumer, provider)

  unknown_row :
      (row : Row)
      → Memᴰ row (keep is_unknown q.considered_rows)
      → Holds q (
          pact_not_ever_verified_by_provider
            (selector_for q row.consumer.name)
            (selector_for q row.provider.name))
  unknown_row row m =
      let (listed, e) = (Memᴰ-keep is_unknown row q.considered_rows).0 m in
      let (consumer, provider) = row_Names q row listed in
      (row, listed, unset row.success (not-true e), consumer, provider)

  error_messages-Holds : All (Holds q) (error_messages q)
  unfolding error_messages specified_selectors_do_not_exist_messages missing_reasons
      failure_messages not_ever_verified_reasons
  error_messages-Holds =
      first_of (Holds q) (specified_selectors_do_not_exist_messages q) _
        (All-map_each (Holds q) specified_version_does_not_exist _ named_version)
        (All-append (Holds q) (missing_reasons q ++ failure_messages q)
          (not_ever_verified_reasons q)
          (All-append (Holds q) (missing_reasons q) (failure_messages q)
            (All-map_each (Holds q) _ _ missing_integration)
            (All-map_each (Holds q) _ _ failed_row))
          (All-map_each (Holds q) _ _ unknown_row))

  no_environment : no_to_tag_or_environment_specified q ≡ true → Holds q no_environment_specified
  unfolding no_to_tag_or_environment_specified
  no_environment h = neither q.options.option_tag q.options.option_environment_name h

  no_version :
      selector_without_pacticipant_version_number q ≡ true
      → Holds q selector_without_pacticipant_version_number_specified
  unfolding selector_without_pacticipant_version_number
  no_version h =
      let asked = keep is_specified q.resolved_selectors in
      let named = keep (λ s. not (only_pacticipant_name_specified s)) asked in
      let (s, m, _) =
        any-Memᴰ (λ s. true) (keep (λ s. not (is_set s.original_version_number)) named) h in
      let (n, unset_number) =
        (Memᴰ-keep (λ s. not (is_set s.original_version_number)) s named).0 m in
      let (k, more) = (Memᴰ-keep (λ s. not (only_pacticipant_name_specified s)) s asked).0 n in
      let (listed, e) = (Memᴰ-keep is_specified s q.resolved_selectors).0 k in
      (s, listed, e, not-true more, unset s.original_version_number (not-true unset_number))

  warning_messages-Holds : All (Holds q) (warning_messages q)
  unfolding warning_messages bad_practice_warnings
  warning_messages-Holds =
      let absent = keep pacticipant_or_version_does_not_exist q.resolved_ignore_selectors in
      All-append (Holds q) (map ignore_selector_does_not_exist absent) (bad_practice_warnings q)
        (All-map_each (Holds q) ignore_selector_does_not_exist absent (λ s m.
          (Memᴰ-keep pacticipant_or_version_does_not_exist s q.resolved_ignore_selectors).0 m))
        (All-append (Holds q)
          (if no_to_tag_or_environment_specified q then no_environment_specified ∷ [] else [])
          (if selector_without_pacticipant_version_number q
            then selector_without_pacticipant_version_number_specified ∷ []
            else [])
          (when (Holds q) no_environment_specified (no_to_tag_or_environment_specified q)
            no_environment)
          (when (Holds q) selector_without_pacticipant_version_number_specified
            (selector_without_pacticipant_version_number q) no_version))

  success_messages-Holds : All (Holds q) (success_messages q)
  unfolding success_messages
  success_messages-Holds =
      told (Holds q) (all succeeds q.considered_rows)
        (any (λ i. true) (required_integrations_without_a_row q))
        (any (λ row. true) q.considered_rows)
        (λ good none_missing. (good, is_empty (required_integrations_without_a_row q) none_missing))
        (λ no_rows none_missing. (
          is_empty q.considered_rows no_rows,
          is_empty (required_integrations_without_a_row q) none_missing,
        ))

  -- Each reason of a summary holds of the results: the row that failed or is not verified is considered, the
  -- integration with no row is required, the selector with no version is there and is not ignored, the ignored
  -- selector matches nothing, what a warning misses is missing, and a success has no row that did not
  -- succeed. The two selectors that a reason names were found, for the pacticipants of its row or
  -- integration.
  pub reasons-Holds : All (Holds q) (reasons q)
  unfolding reasons
  reasons-Holds =
      last_of (Holds q) (error_messages q) (warning_messages q) (success_messages q)
        error_messages-Holds warning_messages-Holds success_messages-Holds
