-- ===== src/CanIDeploy/Summary/Counted.antt =====
-- The answer of a summary and its counts.
use pact_broker.Prelude.{
  ℕ, ◌+◌, ◌≡◌, ◌∙◌, Bool, none, some, false, ltb, ◌==◌, length, keep, arith, if◌then◌else◌,
}
use pact_broker.CanIDeploy.{QueryResults}
use pact_broker.CanIDeploy.Summary.{
  fails, is_unknown, deployable, counts, required_integrations_without_a_row,
  considered_specified_selectors_that_do_not_exist,
}
use pact_broker.CanIDeploy.Summary.Lists.{has_any, any-length, has_any-length, length-rows}
use pact_broker.CanIDeploy.Summary.Answers.{answer}
use pact_broker.CanIDeploy.Summary.Told.{nonexistent, deployable-answer}

counted :
    (n : Bool) (m f u : ℕ)
    → answer n (ltb 0 m) (ltb 0 f) (ltb 0 u)
      ≡ (if n then some false else if ltb 0 (m + u) then none else some (f == 0))
unfolding answer
counted n m f u = ground arith

module _ (q : QueryResults) where
  -- The answer is no where a version that was asked for does not exist; else it is open where something is
  -- unknown by the counts, even if something failed; else it is yes just if nothing failed. The counts tell
  -- each considered row once, and each missing row of a required integration.
  pub deployable-counts :
      let c = counts q in
      (deployable q ≡ (
        if has_any (considered_specified_selectors_that_do_not_exist q)
        then some false
        else if ltb 0 c.unknown_count
        then none
        else some (c.failed_count == 0)))
      × (c.success_count + c.failed_count + c.unknown_count
          ≡ length q.considered_rows + length (required_integrations_without_a_row q))
  unfolding counts answer
  deployable-counts =
      let lacking = has_any-length (required_integrations_without_a_row q) in
      let refused = any-length fails q.considered_rows in
      let open_rows = any-length is_unknown q.considered_rows in
      (
        deployable-answer q
            ∙ rw (lacking, refused, open_rows)
                (counted (nonexistent q) (length (required_integrations_without_a_row q))
                  (length (keep fails q.considered_rows))
                  (length (keep is_unknown q.considered_rows))),
        omega (arith, length-rows q.considered_rows),
      )
