-- ===== src/Runner/Once.antt =====
-- tooling/local-runner/src/orchestrator.ts, runOnce and resumable: one issue is resumed or selected.
-- The texts of `detail` are left out.
pub mod Outcomes
use space_elysiajs_orpc.Prelude.{
  ℕ, ◌+◌, String, Bool, true, false, Option, none, some, List, [], ◌∷◌, map, leb, if◌then◌else◌,
}
use mathlib.Core.Option
use space_elysiajs_orpc.Eligibility
use space_elysiajs_orpc.Runner.Branch.{branch_name, worktree_name}
use space_elysiajs_orpc.Eligibility.{
  Candidate, IssueSummary, SelectionPolicy, SelectionResult, select_next_issue,
}
use space_elysiajs_orpc.Runner.Advance.{
  PullRequestState, open_state, Mergeability, conflicted, ChecksVerdict, failing,
}
use space_elysiajs_orpc.Runner.Github.{
  GhPullRequest, ChecksSummary, state_of, mergeability_of, summarise_checks, to_summary,
}
use space_elysiajs_orpc.Runner.Journal.{RunRecord, Journal, in_flight}
use space_elysiajs_orpc.Runner.Machine.{
  M, ◌>>=◌, pure, Machine, Services, call, read_journal, Feedback, resolve_conflict, red_checks,
  view_pull_request, view_issue, list_issues,
}
use space_elysiajs_orpc.Runner.Work.{Deps, IssueOutcome, IssueStatus}
use space_elysiajs_orpc.Runner.Work
use space_elysiajs_orpc.Runner.Work.Issue.{WorkOptions, from_the_start, work_issue}

pub data StopReason : Type 0 where
  nothing_ready max_issues_reached blocked in_flight_runs budget_exceeded github_unavailable
        agent_unavailable interrupted :
      StopReason

pub record OnceResult : Type 0 where
  pub outcomes : List IssueOutcome
  pub stop_reason : StopReason

-- `Resumption`: not actionable, or actionable with what there is to tell the agent.
pub data Resumption : Type 0 where
  waits : Resumption
  resumes : Option Feedback → Resumption

module _ {W : Type 0} (deps : Deps) (services : Services W) where
  by_checks : RunRecord → ChecksVerdict → List String → Resumption
  by_checks run failing names =
      if leb deps.config.ci_fix_rounds (run.ci_rounds + 1)
      then waits
      else resumes (some (red_checks names))
  by_checks run _ names = waits

  by_mergeability : RunRecord → GhPullRequest → Mergeability → Resumption
  unfolding by_checks
  by_mergeability run pull_request conflicted =
      if leb deps.config.conflict_rounds run.conflict_rounds
      then waits
      else resumes (some resolve_conflict)
  by_mergeability run pull_request _ =
      let checks = summarise_checks deps.upper deps.lower pull_request in
      by_checks run checks.verdict checks.failing_checks

  -- `gh.mergeability` views the pull request once more.
  by_state : RunRecord → ℕ → GhPullRequest → PullRequestState → M (Machine W) Resumption
  unfolding by_mergeability
  by_state run number pull_request open_state = do
    viewed ← call services (view_pull_request number)
    pure (by_mergeability run pull_request (mergeability_of deps.upper deps.lower viewed))
  by_state run number pull_request _ = pure waits

  resumable : RunRecord → Option ℕ → M (Machine W) Resumption
  unfolding by_state
  resumable run none = pure (resumes none)
  resumable run (some number) = do
    pull_request ← call services (view_pull_request number)
    by_state run number pull_request (state_of deps.upper deps.lower pull_request)

  abbrev reason_of : IssueStatus → StopReason
  reason_of status = elim status [ Work.blocked ↦ blocked | _ ↦ max_issues_reached ]

  abbrev pub one_outcome : IssueOutcome → OnceResult
  one_outcome outcome = record { outcomes = outcome ∷ []; stop_reason = reason_of outcome.status }

  resume : RunRecord → Resumption → M (Machine W) OnceResult
  resume run waits = pure (record { outcomes = []; stop_reason = in_flight_runs })
  resume run (resumes feedback) = do
    issue ← call services (view_issue run.issue)
    outcome ←
        work_issue deps services (to_summary deps.upper deps.lower issue)
          (record { start_round = run.fix_rounds + 1; feedback = feedback })
    pure (one_outcome outcome)

  pub take_selected : Option IssueSummary → M (Machine W) OnceResult
  take_selected none = pure (record { outcomes = []; stop_reason = nothing_ready })
  take_selected (some issue) = do
    outcome ← work_issue deps services issue from_the_start
    pure (one_outcome outcome)

  -- The part that selects, given the issues to skip.
  unfoldable pub take_next : List ℕ → M (Machine W) OnceResult
  unfolding take_selected
  take_next skip = do
    issues ← call services list_issues
    let policy = record deps.selection_policy { skip = skip }
    take_selected
        (select_next_issue (map (to_summary deps.upper deps.lower) issues) policy).selected

  resume_or_take : List ℕ → List RunRecord → M (Machine W) OnceResult
  unfolding resumable resume take_next
  resume_or_take skip [] = take_next skip
  resume_or_take skip (run ∷ _) = do
    resumption ← resumable run run.pull_request
    resume run resumption

  unfoldable pub run_once : List ℕ → M (Machine W) OnceResult
  unfolding resume_or_take
  run_once skip = do journal ← read_journal; resume_or_take skip (in_flight journal)

-- `DryRunPlan`; a reason is an eligible candidate's none, or the reasons against it.
pub record DryRunPlan : Type 0 where
  pub selected : Option IssueSummary
  pub stop_reason : Option Eligibility.StopReason
  pub branch : Option String
  pub worktree : Option String
  pub order : List Candidate
  pub in_flight_runs : List RunRecord

module _ (deps : Deps) where
  plan_of : List RunRecord → SelectionResult → DryRunPlan
  plan_of runs selection = record {
    selected = selection.selected;
    stop_reason = selection.stop_reason;
    branch =
        Option.map (λ (i : IssueSummary). branch_name deps.fold i.number i.title)
          selection.selected;
    worktree =
        Option.map (λ (i : IssueSummary). deps.resolve (worktree_name i.number)) selection.selected;
    order = selection.candidates;
    in_flight_runs = runs;
  }

module _ {W : Type 0} (deps : Deps) (services : Services W) where
  unfoldable pub plan_dry_run : M (Machine W) DryRunPlan
  unfolding plan_of
  plan_dry_run = do
    journal ← read_journal
    issues ← call services list_issues
    pure (
        plan_of deps (in_flight journal)
          (select_next_issue (map (to_summary deps.upper deps.lower) issues) deps.selection_policy))
