-- ===== src/Tests/Rounds.antt =====
-- Witnesses for whole evaluations, the state that they write, and findings that come back.
use space_elysiajs_orpc.Prelude.{
  All, subst, sym, String, show, Option, take, ◌+◌, ◌≤◌, ◌<◌, ◌≢◌, true, none, some, List, [], ◌∷◌,
  ◌++◌, ◌≡◌, refl, arith, Memᴰ, length, inl, if◌then◌else◌,
}
use space_elysiajs_orpc.Policy.{
  max_risk, RiskLevel, Severity, reviewers_for_risk, is_at_least_severity,
}
use space_elysiajs_orpc.Review.{Finding, request_changes}
use space_elysiajs_orpc.Gate.{
  required_check_states, decide_merge, aggregate_of, auto_merge, changes_requested, observe,
  without_self_published_checks,
}
use space_elysiajs_orpc.Review.{merge_review, blocking_findings}
use space_elysiajs_orpc.Gate.Merging.{MayMerge, decide_merge-MayMerge}
use space_elysiajs_orpc.ControlPlane.{find_unsafe_workflow_changes}
use space_elysiajs_orpc.Glob.{matches_any_glob, matches_glob, normalise}
use space_elysiajs_orpc.State.{
  LoopState, HistoryEntry, RecordRoundInput, record_round, initial_state, is_changes_requested,
}
use space_elysiajs_orpc.State.Json.{stringify}
use space_elysiajs_orpc.Evaluate.Rendering.Closed.{IsTame}
use space_elysiajs_orpc.Prelude.Text.Opening.{Shut}
use space_elysiajs_orpc.Prelude.Assoc.{get, set}
use space_elysiajs_orpc.Risk.{classify_risk_monotonic, classify_risk}
use space_elysiajs_orpc.ControlPlane.{assess_control_plane}
use space_elysiajs_orpc.Diff.{deletions}
use space_elysiajs_orpc.State.Comment.{parse_loop_state}
use space_elysiajs_orpc.Aggregate.{aggregate_reviews, dedupe}
use space_elysiajs_orpc.State.Bounds.{record_round_exact, IsBounded}
use space_elysiajs_orpc.Recurrence.{
  RecurrenceOccurrence, max_retained_findings, HistoryFindingsEntry, RecurringFinding,
  to_finding_record, findings_match, detect_recurrence,
}
use space_elysiajs_orpc.Recurrence.Similarity.{findings_match_comm}
use space_elysiajs_orpc.Recurrence.Detection.{
  detect_recurrence_exact, IsJustified, IsEarlierRound, IsReported,
}
use space_elysiajs_orpc.Checks.{run_deterministic_checks}
use space_elysiajs_orpc.Checks.Paths.{is_code_file}
use space_elysiajs_orpc.Checks.Secrets.{check_secrets, first_secret}
use space_elysiajs_orpc.Checks.ClientSafety.{check_client_safety}
use space_elysiajs_orpc.Checks.Migrations.{check_migrations}
use space_elysiajs_orpc.Checks.DependencyEdits.{check_dependencies}
use space_elysiajs_orpc.Checks.DebugArtifacts.{check_debug_artifacts}
use space_elysiajs_orpc.Checks.Coverage.{check_test_coverage}
use space_elysiajs_orpc.Checks.Integrity.{check_test_integrity, is_deleted_test}
use space_elysiajs_orpc.Detect.Changes.{dependency_changes}
use space_elysiajs_orpc.Regexp.{text_take, test}
use space_elysiajs_orpc.Evaluate.{Evaluation, evaluate, gate_input}
use space_elysiajs_orpc.Evaluate.Safety.{evaluate-IsSound, IsSound, doubled_rounds_need_approval}
use space_elysiajs_orpc.Evaluate.Scanned.{evaluate-IsClean, IsClean}
use space_elysiajs_orpc.Evaluate.Convergence.{rounds_converge, rounds, Round, evaluated_at, view_at}
use space_elysiajs_orpc.Tests.{
  same, in_order, no_signal, policy, policy_of, approval, objection, finding, fresh, evaluation,
}

abbrev good : Evaluation
good = evaluation none approval

one_reviewer : (r : RiskLevel) → reviewers_for_risk policy r ≡ 1
unfolding reviewers_for_risk
one_reviewer RiskLevel.low = refl
one_reviewer RiskLevel.medium = refl
one_reviewer RiskLevel.high = refl

good-MayMerge : MayMerge (gate_input same in_order no_signal good)
unfolding gate_input merge_review is_at_least_severity blocking_findings
    find_unsafe_workflow_changes matches_any_glob matches_glob normalise
    without_self_published_checks observe run_deterministic_checks check_secrets first_secret test
    check_client_safety check_migrations check_dependencies dependency_changes check_debug_artifacts
    is_code_file check_test_coverage check_test_integrity is_deleted_test
good-MayMerge = record {
  not_draft = refl;
  not_held = refl;
  not_fork = refl;
  unweakened = inl refl;
  enough_reviews = omega (arith, one_reviewer _);
  favourable = refl;
  tier_ran = refl;
  tier_passed = refl;
  checks_passed = (inl refl, tt);
}

good_merges : (evaluate same in_order no_signal good).outcome.decision ≡ auto_merge
unfolding evaluate
good_merges = (decide_merge-MayMerge same (gate_input same in_order no_signal good)).1 good-MayMerge

evaluate-IsSound_example :
    IsSound in_order
      (reviewers_for_risk policy (evaluate same in_order no_signal good).risk.risk)
      good
evaluate-IsSound_example = evaluate-IsSound same in_order no_signal good good_merges

high_blocks : is_at_least_severity Severity.high policy.blocking_severity ≡ true
unfolding is_at_least_severity
high_blocks = refl

evaluate-IsClean_example : IsClean in_order good.diff
evaluate-IsClean_example = evaluate-IsClean same in_order no_signal good high_blocks good_merges

abbrev doubled : Evaluation
doubled = evaluation (some (policy_of 9 none)) approval

doubled_rounds_need_approval_example :
    (evaluate same in_order no_signal doubled).outcome.decision ≢ auto_merge
doubled_rounds_need_approval_example =
    doubled_rounds_need_approval same in_order no_signal doubled (policy_of 9 none) refl
      (inl (omega arith)) refl

abbrev bad : Evaluation
bad = evaluation none objection

abbrev bad_round : Round
bad_round = record { collected = bad; risk_reasons = []; reasons = []; checks = [] }

-- The schema reads the state that the round writes.
abbrev read_bad : String → Option LoopState
read_bad text =
    some (evaluate same in_order no_signal (record bad { previous = initial_state (some 7) })).state

bad-is_read :
    read_bad (stringify (evaluated_at same in_order no_signal read_bad none bad_round).state)
    ≡ some (evaluated_at same in_order no_signal read_bad none bad_round).state
unfolding parse_loop_state
bad-is_read = refl

bad-findings :
    (view_at same in_order no_signal read_bad none bad_round).review.findings
    ≡ finding Severity.high "a leak" ∷ []
unfolding evaluate gate_input merge_review is_at_least_severity blocking_findings
    find_unsafe_workflow_changes matches_any_glob matches_glob normalise parse_loop_state
    without_self_published_checks observe run_deterministic_checks check_secrets first_secret test
    check_client_safety check_migrations check_dependencies dependency_changes check_debug_artifacts
    is_code_file check_test_coverage check_test_integrity is_deleted_test record_round initial_state
    decide_merge aggregate_reviews aggregate_of dedupe detect_recurrence reviewers_for_risk show
    classify_risk_monotonic classify_risk assess_control_plane deletions max_risk
    required_check_states get set
bad-findings = refl

bad-recurrence : (view_at same in_order no_signal read_bad none bad_round).recurrence ≡ []
unfolding evaluate gate_input merge_review is_at_least_severity blocking_findings
    find_unsafe_workflow_changes matches_any_glob matches_glob normalise parse_loop_state
    without_self_published_checks observe run_deterministic_checks check_secrets first_secret test
    check_client_safety check_migrations check_dependencies dependency_changes check_debug_artifacts
    is_code_file check_test_coverage check_test_integrity is_deleted_test record_round initial_state
    decide_merge aggregate_reviews aggregate_of dedupe detect_recurrence reviewers_for_risk show
    classify_risk_monotonic classify_risk assess_control_plane deletions max_risk
    required_check_states get set
bad-recurrence = refl

plain-Shut : (path : String) → some "a.ts" ≡ some path → Shut path
plain-Shut path h = let same : "a.ts" ≡ path = cc in subst Shut same refl

bad-IsTame : IsTame (view_at same in_order no_signal read_bad none bad_round)
bad-IsTame = record {
  files =
      subst (All (λ (f : Finding). (path : String) → f.file ≡ some path → Shut path))
        (sym bad-findings) (plain-Shut, tt);
  sources = tt;
  names = tt;
  heads =
      subst
        (All (λ (r : RecurringFinding).
          All (λ (o : RecurrenceOccurrence). Shut (text_take 12 o.head_sha)) r.occurrences))
        (sym bad-recurrence) tt;
}

rounds_converge_example :
    ((parse_loop_state read_bad
        (rounds same in_order no_signal read_bad none (bad_round ∷ [])).0
        (some 7)).review_attempts
      ≡ (rounds same in_order no_signal read_bad none (bad_round ∷ [])).1)
    × ((rounds same in_order no_signal read_bad none (bad_round ∷ [])).1 ≤ 3)
    × IsBounded (
        parse_loop_state read_bad
          (rounds same in_order no_signal read_bad none (bad_round ∷ [])).0
          (some 7))
rounds_converge_example =
    rounds_converge same in_order no_signal read_bad 3 (some 7) (bad_round ∷ []) (omega arith, tt)
      (bad-IsTame, bad-is_read, tt)

abbrev round_input : RecordRoundInput
round_input = record {
  state = fresh;
  head_sha = "c1";
  review_status = request_changes;
  decision = changes_requested;
  at = "t";
  findings = [];
}

fresh-IsBounded : IsBounded fresh
fresh-IsBounded = record { rounds = omega arith; entries = tt }

record_round_exact_example :
    let s = record_round round_input in
    (s.review_attempts ≡ 0 + (if is_changes_requested changes_requested then 1 else 0))
    × (s.last_decision ≡ some changes_requested)
    × (s.last_review_status ≡ some request_changes)
    × ((dropped : List HistoryEntry) × (entry : HistoryEntry) × (fresh.history ++ entry ∷ []
          ≡ dropped ++ s.history)
        × (entry.head_sha ≡ "c1")
        × (entry.decision ≡ changes_requested)
        × (entry.attempt ≡ fresh.review_attempts)
        × (entry.review_status ≡ request_changes)
        × (entry.at ≡ "t")
        × (entry.findings ≡ take max_retained_findings [])
        × (length dropped ≤ 1)
        × (length fresh.history < 25 → dropped ≡ []))
    × IsBounded s
record_round_exact_example = record_round_exact round_input fresh-IsBounded

abbrev leak : Finding
leak = finding Severity.high "secret token leaks through logs"

abbrev earlier : List HistoryFindingsEntry
earlier = record { head_sha = "c0"; attempt = 1; findings = to_finding_record leak ∷ [] } ∷ []

detect_recurrence_exact_example :
    ((r : RecurringFinding)
      → Memᴰ r (detect_recurrence same (leak ∷ []) earlier "c1")
      → IsJustified same earlier "c1" (leak ∷ []) r)
    × ((f : Finding) (e : HistoryFindingsEntry)
        → Memᴰ f (leak ∷ [])
        → IsEarlierRound same earlier "c1" f e
        → IsReported same earlier "c1" (detect_recurrence same (leak ∷ []) earlier "c1") f e)
detect_recurrence_exact_example = detect_recurrence_exact same earlier "c1" (leak ∷ [])

findings_match_comm_test :
    findings_match same
      (to_finding_record leak)
      (to_finding_record (finding Severity.low "token leaks"))
    ≡ findings_match same
        (to_finding_record (finding Severity.low "token leaks"))
        (to_finding_record leak)
findings_match_comm_test =
    findings_match_comm same (to_finding_record leak)
      (to_finding_record (finding Severity.low "token leaks"))
