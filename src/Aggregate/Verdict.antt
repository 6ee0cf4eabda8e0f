-- ===== src/Aggregate/Verdict.antt =====
-- When the reviews together approve.
use space_elysiajs_orpc.Prelude.{
  ◌≤◌, ◌<◌, String, Bool, true, false, List, [], ◌∷◌, map, ◌≡◌, ◌↔◌, ◌⊎◌, arith, all, any,
  any-append, length, filter, not, ◌&&◌,
}
use space_elysiajs_orpc.Policy.{Severity, is_at_least_severity}
use space_elysiajs_orpc.Review.{
  Finding, ReviewStatus, approve, request_changes, blocked, ReviewResult, is_approve, is_blocked,
  is_request_changes,
}
use space_elysiajs_orpc.Review.Merging.{any_blocking, blocking_findings_some}
use space_elysiajs_orpc.Aggregate.{AggregateInput, all_findings, dedupe, aggregate_reviews}
use space_elysiajs_orpc.Aggregate.Dedupe.{any_blocking-dedupe}

-- A reviewer who approves, and whose findings are all below the blocking severity.
abbrev pub is_favourable : Severity → ReviewResult → Bool
is_favourable bar r = is_approve r.status && not (any_blocking bar r.findings)

abbrev pub reports_blocked : ReviewResult → Bool
reports_blocked r = is_blocked r.status

abbrev statuses : List ReviewResult → List ReviewStatus
statuses = map (λ (r : ReviewResult). r.status)

count_blocked :
    (l : List ReviewResult)
    → (length (filter is_blocked (statuses l)) ≡ 0) ↔ (any reports_blocked l ≡ false)
count_blocked [] = ground arith
count_blocked (r ∷ l) = ground (arith, count_blocked l)

favourable_iff :
    (bar : Severity) (l : List ReviewResult)
    → (all (is_favourable bar) l ≡ true) ↔ (
        (length (filter is_blocked (statuses l)) ≡ 0)
        × (length (filter is_request_changes (statuses l)) ≡ 0)
        × (any_blocking bar (all_findings l) ≡ false))
unfolding all_findings
favourable_iff bar [] = ground arith
favourable_iff bar (r ∷ l) = ground (
  arith,
  favourable_iff bar l,
  any-append (λ (f : Finding). is_at_least_severity f.severity bar) r.findings (all_findings l),
)

module _ (lower : String → String) (input : AggregateInput) where
  pub aggregate_reviews-eq-approve_iff : ((aggregate_reviews lower input).status ≡ approve) ↔ (
      (input.required ≤ length input.reviews)
      × (all (is_favourable input.blocking_severity) input.reviews ≡ true))
  unfolding aggregate_reviews
  aggregate_reviews-eq-approve_iff = ground (
    arith,
    favourable_iff input.blocking_severity input.reviews,
    blocking_findings_some (dedupe lower (all_findings input.reviews)) input.blocking_severity,
    any_blocking-dedupe lower input.blocking_severity (all_findings input.reviews),
  )

  aggregate_reviews-eq-blocked_iff :
      ((aggregate_reviews lower input).status ≡ blocked)
      ↔ ((length input.reviews < input.required) ⊎ (any reports_blocked input.reviews ≡ true))
  unfolding aggregate_reviews
  aggregate_reviews-eq-blocked_iff = ground (arith, count_blocked input.reviews)

  -- The whole verdict. It approves exactly when as many reviews as required arrived and every one
  -- of them approves with no finding at or above the blocking severity; it is blocked exactly when
  -- too few arrived or one of them is blocked. In every other case it requests changes.
  pub aggregate_reviews_exact :
      (((aggregate_reviews lower input).status ≡ approve) ↔ (
        (input.required ≤ length input.reviews)
        × (all (is_favourable input.blocking_severity) input.reviews ≡ true)))
      × (((aggregate_reviews lower input).status ≡ blocked)
          ↔ ((length input.reviews < input.required) ⊎ (any reports_blocked input.reviews ≡ true)))
      × (((aggregate_reviews lower input).status ≡ approve)
          ⊎ ((aggregate_reviews lower input).status ≡ blocked)
          ⊎ ((aggregate_reviews lower input).status ≡ request_changes))
  aggregate_reviews_exact =
      (aggregate_reviews-eq-approve_iff, aggregate_reviews-eq-blocked_iff, ground arith)
