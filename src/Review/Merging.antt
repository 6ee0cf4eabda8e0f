-- ===== src/Review/Merging.antt =====
-- What joining the deterministic findings to a review can change.
use space_elysiajs_orpc.Prelude.{
  ℕ, ◌≤◌, Bool, true, false, List, ◌++◌, ◌≡◌, ◌↔◌, arith, any, any-append, is_empty-filter,
  is_empty,
}
use space_elysiajs_orpc.Policy.{Severity, is_at_least_severity}
use space_elysiajs_orpc.Review.{
  Finding, ReviewStatus, approve, request_changes, blocked, ReviewResult, blocking_findings,
  merge_review,
}

-- Some finding is at or above the blocking severity.
abbrev pub any_blocking : Severity → List Finding → Bool
any_blocking bar = any (λ (f : Finding). is_at_least_severity f.severity bar)

pub blocking_findings_some :
    (l : List Finding) (bar : Severity)
    → (is_empty (blocking_findings l bar) ≡ false) ↔ (any_blocking bar l ≡ true)
unfolding blocking_findings
blocking_findings_some l bar = is_empty-filter _ l

abbrev pub strictness : ReviewStatus → ℕ
strictness approve = 0
strictness request_changes = 1
strictness blocked = 2

-- Joining the deterministic findings never makes a review less strict; the merged review approves
-- exactly when the agent approved and no finding, of the checks or of the agent, is at or above
-- the blocking severity.
pub merge_review_strict :
    (agent : ReviewResult) (deterministic : List Finding) (bar : Severity)
    → (strictness agent.status ≤ strictness (merge_review agent deterministic bar).status)
      × (((merge_review agent deterministic bar).status ≡ approve) ↔ (
          (agent.status ≡ approve)
          × (any_blocking bar deterministic ≡ false)
          × (any_blocking bar agent.findings ≡ false)))
unfolding merge_review
merge_review_strict agent deterministic bar = ground (
  arith,
  blocking_findings_some (deterministic ++ agent.findings) bar,
  any-append (λ (f : Finding). is_at_least_severity f.severity bar) deterministic agent.findings,
)
