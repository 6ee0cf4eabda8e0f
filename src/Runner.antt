-- ===== src/Runner.antt =====
-- tooling/local-runner/src: the runner of the loop on a developer's machine. Here is the part of its
-- configuration that the modelled components read (config.ts).
pub mod Budget
pub mod Backoff
pub mod Verify
pub mod Lock
pub mod Journal
pub mod Advance
pub mod Redact
pub mod Environment
pub mod Branch
pub mod Github
pub mod Machine
pub mod Git
pub mod Work
pub mod Once
pub mod Session
pub mod Summary
use space_elysiajs_orpc.Prelude.{ℕ, Bool, true, false, Option, none, some, if◌then◌else◌}

pub record RunnerConfig : Type 0 where
  pub unattended : Bool
  pub max_issues : Option ℕ
  pub max_model_invocations_per_hour : ℕ
  pub max_issues_per_day : ℕ
  pub max_runtime_hours : ℕ
  pub coding_fix_rounds : ℕ
  pub ci_fix_rounds : ℕ
  pub reviewer_retry_rounds : ℕ
  pub conflict_rounds : ℕ
  pub poll_interval_seconds : ℕ
  pub max_consecutive_failures : ℕ
  pub backoff_base_seconds : ℕ
  pub backoff_max_seconds : ℕ

-- 0 is no limit.
unfoldable pub issue_budget : RunnerConfig → ℕ
issue_budget config = elim config.max_issues [
  | some n ↦ n
  | none ↦ if config.unattended then 0 else 1
]
