-- ===== src/Runner/Work/Reviews.antt =====
-- tooling/local-runner/src/orchestrator.ts, gatherReviews and combine: the independent review passes
-- that a tier requires.
pub mod Keeping
use space_elysiajs_orpc.Prelude.{
  ℕ, zero, suc, ◌+◌, ◌-◌, String, Option, none, some, List, [], ◌∷◌, ◌++◌, ltb, length,
  if◌then◌else◌,
}
use space_elysiajs_orpc.Policy.{LoopPolicy}
use space_elysiajs_orpc.Review.{ReviewResult}
use space_elysiajs_orpc.Aggregate.{aggregate_reviews}
use space_elysiajs_orpc.Runner.Machine.{
  M, ◌>>=◌, ◌>>◌, pure, Machine, Services, call, spend_invocation, ReviewTask, ReviewOutcome,
  review, reviewed, unusable,
}

-- The failures, by the pass and, where a reviewer was asked, its attempt and reason.
pub record Gathered : Type 0 where
  pub usable : List ReviewResult
  pub failures : List (ℕ × Option (ℕ × String))

abbrev pub nothing_gathered : Gathered
nothing_gathered = record { usable = []; failures = [] }

abbrev pub joined : Gathered → Gathered → Gathered
joined a b = record { usable = a.usable ++ b.usable; failures = a.failures ++ b.failures }

-- `reviewers[index] ?? reviewers[reviewers.length - 1]`
reviewer_at : ℕ → ℕ → Option ℕ
reviewer_at zero index = none
reviewer_at (suc last) index = some (if ltb index (suc last) then index else last)

module _ {W : Type 0} (services : Services W) (task : ReviewTask) where
  after_attempt : ℕ → ℕ → M (Machine W) Gathered → ReviewOutcome → M (Machine W) Gathered
  after_attempt pass attempt retry (reviewed result) =
      pure (record { usable = result ∷ []; failures = [] })
  after_attempt pass attempt retry (unusable reason) = do
    later ← retry
    pure (
        joined (record { usable = []; failures = (pass + 1, some (attempt + 1, reason)) ∷ [] })
          later)

  -- The inner loop, from an attempt on.
  try_reviewer : ℕ → ℕ → ℕ → ℕ → M (Machine W) Gathered
  unfolding after_attempt
  try_reviewer zero attempt pass reviewer = pure nothing_gathered
  try_reviewer (suc left) attempt pass reviewer = do
    spend_invocation services
    outcome ← call services (review reviewer task)
    after_attempt pass attempt (try_reviewer left (suc attempt) pass reviewer) outcome

  module _ (reviewers retry_rounds : ℕ) where
    one_pass : ℕ → Option ℕ → M (Machine W) Gathered
    unfolding try_reviewer
    one_pass pass none = pure (record { usable = []; failures = (pass + 1, none) ∷ [] })
    one_pass pass (some reviewer) = try_reviewer retry_rounds 0 pass reviewer

    -- The outer loop, from a pass on.
    gather_from : ℕ → ℕ → M (Machine W) Gathered
    unfolding one_pass reviewer_at
    gather_from zero pass = pure nothing_gathered
    gather_from (suc left) pass = do
      first ← one_pass pass (reviewer_at reviewers pass)
      later ← gather_from left (suc pass)
      pure (joined first later)

    unfoldable pub gather_reviews : ℕ → M (Machine W) Gathered
    unfolding gather_from
    gather_reviews required = gather_from required 0

unfoldable pub combine : (String → String) → List ReviewResult → LoopPolicy → ReviewResult
combine lower reviews policy =
    let outcome = aggregate_reviews lower (record {
      reviews = reviews;
      required = length reviews;
      blocking_severity = policy.blocking_severity;
    }) in
    record { status = outcome.status; findings = outcome.findings; summary = outcome.summary }
