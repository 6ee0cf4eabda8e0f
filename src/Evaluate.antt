-- ===== src/Evaluate.antt =====
-- tooling/loop/bin/evaluate-pr.ts: one evaluation of a pull request, from what the workflow collected
-- to the decision and the state that it writes back. The time is part of what is collected.
pub mod Safety
pub mod Scanned
pub mod Rendering
pub mod Convergence
use space_elysiajs_orpc.Prelude.{
  ℕ, String, Bool, true, false, Option, none, some, List, [], ◌∷◌, ◌++◌, map, if◌then◌else◌,
  includes, concat,
}
use space_elysiajs_orpc.Policy.{RiskLevel, Severity, LoopPolicy, reviewers_for_risk}
use space_elysiajs_orpc.Review.{
  Finding, ReviewStatus, blocked, ReviewResult, blocking_findings, merge_review,
}
use space_elysiajs_orpc.Diff.{PullRequestDiff}
use space_elysiajs_orpc.Checks.{run_deterministic_checks}
use space_elysiajs_orpc.ControlPlane.{find_unsafe_workflow_changes}
use space_elysiajs_orpc.ControlPlane.Protections.{find_weakened_protections}
use space_elysiajs_orpc.Risk.{RiskAssessment, classify_risk_monotonic}
use space_elysiajs_orpc.Recurrence.{
  FindingRecord, to_finding_record, RecurringFinding, HistoryFindingsEntry, detect_recurrence,
}
use space_elysiajs_orpc.Gate.{CheckState, GateInput, GateDecision, GateOutcome, decide_merge}
use space_elysiajs_orpc.State.{HistoryEntry, LoopState, record_round, is_changes_requested}

-- `EvaluationContextSchema`, as far as the evaluation reads it.
pub record Context : Type 0 where
  pub labels : List String
  pub issue_labels : List String
  pub checks : List CheckState
  pub required_checks : List String
  pub human_approvals : ℕ
  pub is_fork : Bool
  pub is_draft : Bool
  pub head_sha : String

pub record Evaluation : Type 0 where
  pub policy : LoopPolicy
  pub proposed : Option LoopPolicy
  pub diff : PullRequestDiff
  -- What each configured reviewer wrote, validated; `none` where it wrote nothing.
  pub outputs : List (Option ReviewResult)
  pub context : Context
  pub previous : LoopState
  pub issue : Option ℕ
  pub at : String

pub record Evaluated : Type 0 where
  pub risk : RiskAssessment
  pub outcome : GateOutcome
  pub recurrence : List RecurringFinding
  pub state : LoopState

pub unavailable_review : String → ReviewResult
unavailable_review reason = record {
  status = blocked;
  summary = concat ("No usable review agent result: " ∷ reason ∷ []);
  findings =
      record {
        severity = Severity.high;
        file = none;
        line = none;
        description = concat ("The review agent produced no result (" ∷ reason ∷ ")." ∷ []);
        suggested_action =
            "Configure a review agent provider (see docs/loop-engineering.md), or review and merge this pull request by hand.";
        source = "review-availability";
        category = "automation";
      }
      ∷ [];
}

abbrev written : Option ReviewResult → ReviewResult
written none = unavailable_review "the review agent wrote no output"
written (some review) = review

agent_reviews : List (Option ReviewResult) → List ReviewResult
agent_reviews [] = unavailable_review "no review agent is configured" ∷ []
agent_reviews (output ∷ outputs) = map written (output ∷ outputs)

-- The deterministic findings ride on the first review.
with_findings : List Finding → Severity → List ReviewResult → List ReviewResult
with_findings deterministic bar [] = []
with_findings deterministic bar (first ∷ rest) = merge_review first deterministic bar ∷ rest

weakened_by : LoopPolicy → Option LoopPolicy → PullRequestDiff → List Finding
weakened_by policy none diff = find_unsafe_workflow_changes diff
weakened_by policy (some proposed) diff =
    find_weakened_protections (record { base = policy; head = proposed; diff = diff })
    ++ find_unsafe_workflow_changes diff

abbrev prior_rounds : List HistoryEntry → List HistoryFindingsEntry
prior_rounds = map (λ (e : HistoryEntry). record {
  head_sha = e.head_sha;
  attempt = e.attempt;
  findings = e.findings;
})

-- The parameters are those of Aggregate, Detect.Changes and ControlPlane.
module _ (lower : String → String) (locale_le : String → String → Bool)
    (signals : String → String → Bool) where
  pub labels_of : Evaluation → List String
  labels_of e = e.context.labels ++ e.context.issue_labels

  pub risk_of : Evaluation → RiskAssessment
  unfolding labels_of
  risk_of e = classify_risk_monotonic locale_le signals e.diff (labels_of e) e.policy e.proposed

  unfoldable pub gate_input : Evaluation → GateInput
  unfolding risk_of agent_reviews with_findings weakened_by
  gate_input e = record {
    risk = (risk_of e).risk;
    reviews =
        with_findings (run_deterministic_checks locale_le e.diff) e.policy.blocking_severity
          (agent_reviews e.outputs);
    required_reviewers = reviewers_for_risk e.policy (risk_of e).risk;
    checks = e.context.checks;
    required_checks = e.context.required_checks;
    review_attempts = e.previous.review_attempts;
    max_review_attempts = e.policy.retry.max_review_attempts;
    human_approvals = e.context.human_approvals;
    is_fork = e.context.is_fork;
    is_draft = e.context.is_draft;
    blocking_severity = e.policy.blocking_severity;
    weakened_protections = some (weakened_by e.policy e.proposed e.diff);
    human_hold = some (includes "needs:human" (labels_of e));
    tier_verification = none;
  }

  unfoldable pub evaluate : Evaluation → Evaluated
  unfolding gate_input
  evaluate e =
      let outcome = decide_merge lower (gate_input e) in
      let review = outcome.review in
      let retained =
        if is_changes_requested outcome.decision
        then map to_finding_record (blocking_findings review.findings e.policy.blocking_severity)
        else [] in
      record {
        risk = risk_of e;
        outcome = outcome;
        recurrence =
            detect_recurrence lower review.findings (prior_rounds e.previous.history)
              e.context.head_sha;
        state = record_round (record {
          state = record e.previous { issue = e.issue };
          head_sha = e.context.head_sha;
          review_status = review.status;
          decision = outcome.decision;
          at = e.at;
          findings = retained;
        });
      }
