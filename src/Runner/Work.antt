-- ===== src/Runner/Work.antt =====
-- tooling/local-runner/src/orchestrator.ts, workIssue: one issue, up to the pull request. Here are
-- what it depends on, its result, and how it fails.
pub mod Keeping
pub mod Reviews
pub mod Rounds
pub mod Issue
use space_elysiajs_orpc.Prelude.{
  ℕ, zero, suc, String, Bool, true, false, Option, none, some, List, [], ◌∷◌,
}
use space_elysiajs_orpc.Policy.{LoopPolicy}
use space_elysiajs_orpc.Risk.{RiskAssessment}
use space_elysiajs_orpc.Eligibility.{IssueSummary, SelectionPolicy}
use space_elysiajs_orpc.Runner.{RunnerConfig}
use space_elysiajs_orpc.Runner.Journal.{RunRecord, RunStatus, Journal, upsert_run}
use space_elysiajs_orpc.Runner.Verify.{VerificationOutcome}
use space_elysiajs_orpc.Runner.Machine.{
  M, ◌>>=◌, ◌>>◌, pure, Machine, Services, Call, call, Failure, Feedback, write_journal,
  remove_label, add_labels, comment,
}

-- `RunnerDeps`, but for what Services answers. `reviewers` is how many there are, `resolve` the path
-- of a worktree by its name, `same_policy` the comparison of the two policies' JSON; `fold`, `upper`,
-- `lower`, `locale_le` and `signals` are the parameters of Branch, Github, Aggregate and Risk, and
-- `depth` is how deep tiers may inherit before the stack is exhausted.
pub record Deps : Type 0 where
  pub config : RunnerConfig
  pub policy : LoopPolicy
  pub repository : String
  pub remote : String
  pub default_branch : String
  pub reviewers : ℕ
  pub selection_policy : SelectionPolicy
  pub resolve : String → String
  pub same_policy : LoopPolicy → LoopPolicy → Bool
  pub fold : String → String
  pub upper : String → String
  pub lower : String → String
  pub locale_le : String → String → Bool
  pub signals : String → String → Bool
  pub depth : ℕ

pub data IssueStatus : Type 0 where
  opened updated blocked skipped : IssueStatus

-- `detail` is the failure, or `none` where it is told by the other fields.
pub record IssueOutcome : Type 0 where
  pub issue : ℕ
  pub branch : String
  pub status : IssueStatus
  pub pull_request : Option ℕ
  pub risk : Option RiskAssessment
  pub failure : Option Failure

-- The constants of one call of `workIssue`.
pub record Job : Type 0 where
  pub issue : IssueSummary
  pub branch : String
  pub worktree : String
  pub base : String
  pub start_round : ℕ
  pub feedback : Option Feedback

-- The variables `journal` and `record`.
pub record Local : Type 0 where
  pub journal : Journal
  pub run : RunRecord

-- `save`
unfoldable pub save : {W : Type 0} → Local → M (Machine W) Local
save local = do
  let journal = upsert_run local.journal local.run
  write_journal journal
  pure (record local { journal = journal })

abbrev pub given_up : Job → Local → Failure → IssueOutcome
given_up job local failure = record {
  issue = job.issue.number;
  branch = job.branch;
  status = blocked;
  pull_request = local.run.pull_request;
  risk = none;
  failure = some failure;
}

module _ {W : Type 0} (services : Services W) (job : Job) where
  unfoldable pub fail : Local → Failure → M (Machine W) IssueOutcome
  unfolding save
  fail local failure = do
    _ ← save (record local { run = record local.run { status = RunStatus.blocked } })
    call services (remove_label job.issue.number "agent:in-progress")
    call services (add_labels job.issue.number ("agent:blocked" ∷ []))
    call services (comment job.issue.number failure)
    pure (given_up job local failure)
