-- ===== src/Tests.antt =====
-- Sample data for the witnesses and the tests of the modules below.
mod Verdicts
mod Policies
mod Changes
mod Rounds
mod Issues
mod Runners
mod Sessions
mod Scans
mod Comments
use space_elysiajs_orpc.Prelude.{ℕ, String, Bool, true, false, Option, none, some, List, [], ◌∷◌}
use space_elysiajs_orpc.Policy.{RiskLevel, Severity, LoopPolicy, Tier, TierStep, PathRule, Retry}
use space_elysiajs_orpc.Review.{
  Finding, ReviewResult, ReviewStatus, approve, request_changes, blocked,
}
use space_elysiajs_orpc.Gate.{GateInput, CheckState, CheckConclusion, success}
use space_elysiajs_orpc.Diff.{PullRequestDiff, DiffFile, FileStatus}
use space_elysiajs_orpc.State.{LoopState}
use space_elysiajs_orpc.Evaluate.{Evaluation}

-- The parameters: letter case left alone, texts all in order, a signal that is never there.
abbrev pub same : String → String
same s = s

abbrev pub in_order : String → String → Bool
in_order s t = true

abbrev pub no_signal : String → String → Bool
no_signal s line = false

abbrev pub finding : Severity → String → Finding
finding severity description = record {
  severity = severity;
  file = some "a.ts";
  line = some 3;
  description = description;
  suggested_action = "fix it";
  source = "agent";
  category = "logic";
}

abbrev pub approval : ReviewResult
approval = record {
  status = approve;
  findings = finding Severity.low "a name" ∷ [];
  summary = "fine";
}

abbrev pub objection : ReviewResult
objection = record {
  status = request_changes;
  findings = finding Severity.high "a leak" ∷ finding Severity.low "a leak" ∷ [];
  summary = "no";
}

abbrev pub step : String → TierStep
step name = record {
  name = name;
  command = "bun";
  args = "run" ∷ name ∷ [];
  when_changed = none;
  requires = none;
  requires_probe = none;
  timeout_minutes = 10;
}

abbrev pub retry : ℕ → Retry
retry coding = record {
  max_review_attempts = 3;
  coding_fix_rounds = coding;
  review_fix_rounds = 3;
  ci_fix_rounds = 3;
  reviewer_retry_rounds = 2;
  conflict_rounds = 2;
}

abbrev pub tier : Option RiskLevel → String → ℕ → Tier
tier inherits name reviewers = record {
  inherits = inherits;
  steps = step name ∷ step "shared" ∷ [];
  reviewers = reviewers;
}

abbrev pub policy_of : ℕ → Option RiskLevel → LoopPolicy
policy_of coding low_inherits = record {
  retry = retry coding;
  risk = record {
    default = RiskLevel.low;
    paths =
        record { risk = RiskLevel.medium; reason = "contracts"; patterns = "packages/**" ∷ [] }
        ∷ [];
    escalations = record {
      max_changed_files = 10;
      max_deleted_lines = 100;
      destructive_migration_globs = "db/**" ∷ [];
      public_contract_globs = [];
    };
  };
  tiers = record {
    low = tier low_inherits "lint" 1;
    medium = tier (some RiskLevel.low) "test" 1;
    high = tier (some RiskLevel.medium) "e2e" 1;
  };
  control_plane = record { patterns = ".github/**" ∷ []; policy_signals = []; always_policy = [] };
  blocking_severity = Severity.high;
  required_checks = "ci" ∷ [];
}

abbrev pub policy : LoopPolicy
policy = policy_of 3 none

abbrev pub diff : PullRequestDiff
diff = record {
  files =
      record {
        path = "packages/x.ts";
        status = FileStatus.modified;
        added_lines = "let a = 1" ∷ [];
        removed_lines = [];
      }
      ∷ [];
}

abbrev pub gate_sample : GateInput
gate_sample = record {
  risk = RiskLevel.low;
  reviews = approval ∷ [];
  required_reviewers = 1;
  checks = record { name = "ci"; conclusion = success } ∷ [];
  required_checks = "ci" ∷ "loop/risk-gate" ∷ [];
  review_attempts = 1;
  max_review_attempts = 3;
  human_approvals = 0;
  is_fork = false;
  is_draft = false;
  blocking_severity = Severity.high;
  weakened_protections = none;
  human_hold = none;
  tier_verification = some (record { ok = true; unavailable = []; failed = [] });
}

abbrev pub fresh : LoopState
fresh = record {
  issue = some 7;
  review_attempts = 0;
  last_review_status = none;
  last_decision = none;
  history = [];
}

abbrev pub evaluation : Option LoopPolicy → ReviewResult → Evaluation
evaluation proposed review = record {
  policy = policy;
  proposed = proposed;
  diff = diff;
  outputs = some review ∷ [];
  context = record {
    labels = [];
    issue_labels = [];
    checks = record { name = "ci"; conclusion = success } ∷ [];
    required_checks = "ci" ∷ [];
    human_approvals = 0;
    is_fork = false;
    is_draft = false;
    head_sha = "c1";
  };
  previous = fresh;
  issue = some 7;
  at = "t";
}
