-- ===== src/CanIDeploy/Summary/Told.antt =====
-- What the reasons of a summary say of its answer.
use pact_broker.Prelude.{
  ◌≡◌, ◌↔◌, refl, sym, ◌∙◌, ap, ap₂, Bool, true, false, not, ◌&&◌, ◌||◌, some, List, [], ◌∷◌, ◌++◌,
  map, keep, any, any-append, if◌then◌else◌,
}
use pact_broker.CanIDeploy.{
  QueryResults, pacticipant_or_version_does_not_exist, specified_version_that_does_not_exist,
}
use pact_broker.CanIDeploy.Summary.{
  Reason, specified_version_does_not_exist, ignore_selector_does_not_exist,
  no_environment_specified, selector_without_pacticipant_version_number_specified,
  no_to_tag_or_environment_specified, selector_without_pacticipant_version_number, warning, type_of,
  succeeds, fails, is_unknown, all, deployable, required_integrations_without_a_row,
  considered_specified_selectors_that_do_not_exist, specified_selectors_do_not_exist_messages,
  missing_reasons, failure_messages, not_ever_verified_reasons, error_messages,
  bad_practice_warnings, warning_messages, success_messages, reasons,
}
use pact_broker.CanIDeploy.Summary.Lists.{
  has_any, has_any-keep, any-keep-keep, any-map, all-succeeds,
}
use pact_broker.CanIDeploy.Summary.Answers.{
  is_error_type, is_success_type, is_error, is_success, error-is_success, success-is_error, either,
  all_of, answer, answer_true, shared, chosen, any-if, any-told, any-second, answer_told,
}

module _ (q : QueryResults) where
  abbrev pub nonexistent : Bool
  nonexistent = has_any (considered_specified_selectors_that_do_not_exist q)

  abbrev pub missing : Bool
  missing = has_any (required_integrations_without_a_row q)

  abbrev pub failed : Bool
  failed = any fails q.considered_rows

  abbrev pub unknown : Bool
  unknown = any is_unknown q.considered_rows

  pub deployable-answer : deployable q ≡ answer nonexistent missing failed unknown
  unfolding deployable answer
  deployable-answer = rw (all-succeeds q.considered_rows) refl

  any-first :
      (p : Reason → Bool) (xs ys : List Reason)
      → any p (elim xs [ [] ↦ ys | m ∷ messages ↦ m ∷ messages ])
        ≡ (if has_any xs then any p xs else any p ys)
  any-first p [] ys = refl
  any-first p (x ∷ xs) ys = refl

  absent_lem :
      has_any
        (keep (λ s. not s.ignore) (keep specified_version_that_does_not_exist q.resolved_selectors))
      ≡ nonexistent
  unfolding considered_specified_selectors_that_do_not_exist
  absent_lem =
      let absent = keep specified_version_that_does_not_exist q.resolved_selectors in
      has_any-keep (λ s. not s.ignore) absent
      ∙ any-keep-keep (λ s. not s.ignore) specified_version_that_does_not_exist q.resolved_selectors
      ∙ sym (
          has_any-keep specified_version_that_does_not_exist
            (keep (λ s. not s.ignore) q.resolved_selectors))

  abbrev obstacle : Bool
  obstacle = if nonexistent then true else missing || (failed || unknown)

  -- A test with one answer for all errors.
  any-error_messages :
      (p : Reason → Bool) (b : Bool)
      → ((r : Reason) → is_error r ≡ true → p r ≡ b)
      → any p (error_messages q) ≡ (b && obstacle)
  unfolding error_messages specified_selectors_do_not_exist_messages missing_reasons
      failure_messages not_ever_verified_reasons type_of
  any-error_messages p b h =
      let absent =
        keep (λ s. not s.ignore)
          (keep specified_version_that_does_not_exist q.resolved_selectors) in
      let first = specified_selectors_do_not_exist_messages q in
      let named =
        any-map p b specified_version_does_not_exist absent (λ s. h _ refl)
        ∙ ap (λ c. b && c) absent_lem in
      let there =
        any-map (λ r. true) true specified_version_does_not_exist absent (λ s. refl) ∙ absent_lem in
      let lacking = any-map p b _ (required_integrations_without_a_row q) (λ i. h _ refl) in
      let refused =
        any-map p b _ (keep fails q.considered_rows) (λ row. h _ refl)
        ∙ ap (λ c. b && c) (has_any-keep fails q.considered_rows) in
      let unverified =
        any-map p b _ (keep is_unknown q.considered_rows) (λ row. h _ refl)
        ∙ ap (λ c. b && c) (has_any-keep is_unknown q.considered_rows) in
      any-first p first _
      ∙ chosen b nonexistent (missing || (failed || unknown)) there named (
          any-append p (missing_reasons q ++ failure_messages q) (not_ever_verified_reasons q)
          ∙ ap₂ (λ x y. x || y)
              (any-append p (missing_reasons q) (failure_messages q)
                ∙ ap₂ (λ x y. x || y) lacking refused)
              unverified
          ∙ shared b missing failed unknown)

  any-warning_messages :
      (p : Reason → Bool)
      → ((r : Reason) → type_of r ≡ warning → p r ≡ false)
      → any p (warning_messages q) ≡ false
  unfolding warning_messages bad_practice_warnings type_of
  any-warning_messages p h =
      let absent = keep pacticipant_or_version_does_not_exist q.resolved_ignore_selectors in
      any-append p (map ignore_selector_does_not_exist absent) (bad_practice_warnings q)
      ∙ ap₂ (λ x y. x || y) (any-map p false ignore_selector_does_not_exist absent (λ s. h _ refl))
          (any-append p
              (if no_to_tag_or_environment_specified q then no_environment_specified ∷ [] else [])
              (if selector_without_pacticipant_version_number q
                then selector_without_pacticipant_version_number_specified ∷ []
                else [])
            ∙ ap₂ (λ x y. x || y)
                (any-if p no_environment_specified (no_to_tag_or_environment_specified q)
                  (h _ refl))
                (any-if p selector_without_pacticipant_version_number_specified
                  (selector_without_pacticipant_version_number q) (h _ refl)))

  any-success_messages :
      (p : Reason → Bool) (b : Bool)
      → ((r : Reason) → is_success r ≡ true → p r ≡ b)
      → any p (success_messages q) ≡ (b && (all succeeds q.considered_rows && not missing))
  unfolding success_messages type_of
  any-success_messages p b h =
      any-told p b (all succeeds q.considered_rows && not missing) (has_any q.considered_rows)
        (h _ refl) (h _ refl)

  any-reasons :
      (p : Reason → Bool)
      → any p (reasons q) ≡ (
          any p (warning_messages q)
          || (if has_any (error_messages q)
              then any p (error_messages q)
              else any p (success_messages q)))
  unfolding reasons
  any-reasons p = any-second p (error_messages q) (warning_messages q) (success_messages q)

  reasons-is_error : any is_error (reasons q) ≡ obstacle
  unfolding type_of
  reasons-is_error =
      let there = any-error_messages (λ r. true) true (λ r e. refl) in
      let errors = any-error_messages is_error true (λ r e. e) in
      let warnings = any-warning_messages is_error (λ r e. ap is_error_type e) in
      let successes = any-success_messages is_error false success-is_error in
      any-reasons is_error
      ∙ either obstacle obstacle warnings there errors successes
      ∙ all_of obstacle

  reasons-is_success :
      any is_success (reasons q)
      ≡ (if obstacle then false else all succeeds q.considered_rows && not missing)
  unfolding type_of
  reasons-is_success =
      let there = any-error_messages (λ r. true) true (λ r e. refl) in
      let errors = any-error_messages is_success false error-is_success in
      let warnings = any-warning_messages is_success (λ r e. ap is_success_type e) in
      let successes = any-success_messages is_success true (λ r e. e) in
      any-reasons is_success ∙ either obstacle false warnings there errors successes

  -- The summary says that the version can be deployed just if no reason is an error, and just if one is a
  -- success.
  pub deployable-reasons :
      ((deployable q ≡ some true) ↔ (any is_error (reasons q) ≡ false))
      × ((deployable q ≡ some true) ↔ (any is_success (reasons q) ≡ true))
  deployable-reasons =
      let open_way = answer_true nonexistent missing failed unknown in
      let told = answer_told nonexistent missing failed unknown in
      (
        rw (deployable-answer, reasons-is_error) open_way,
        rw (deployable-answer, reasons-is_success, all-succeeds q.considered_rows) told,
      )
