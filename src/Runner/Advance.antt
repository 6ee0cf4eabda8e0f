-- ===== src/Runner/Advance.antt =====
-- tooling/local-runner/src/orchestrator.ts, advance: how the runs in flight are moved forward. What
-- GitHub answers about a pull request is a parameter; the calls that change labels, comments and
-- worktrees are told by the action.
pub mod Failing
pub mod Writes
use space_elysiajs_orpc.Prelude.{
  ℕ, ◌+◌, String, Bool, true, false, Option, none, some, List, [], ◌∷◌, leb, is_empty,
  if◌then◌else◌,
}
use space_elysiajs_orpc.Runner.{RunnerConfig}
use space_elysiajs_orpc.Runner.Journal.{
  RunRecord, RunStatus, Journal, in_flight, upsert_run, blocked, done,
}

pub data PullRequestState : Type 0 where
  open_state merged_state closed_state : PullRequestState

pub data Mergeability : Type 0 where
  clean behind conflicted held unknown : Mergeability

pub data ChecksVerdict : Type 0 where
  pending passing failing none_reported : ChecksVerdict

-- The answers about one pull request; `updates` says whether updating its branch succeeds.
pub record Remote : Type 0 where
  pub state : PullRequestState
  pub mergeability : Mergeability
  pub updates : Bool
  pub verdict : ChecksVerdict
  pub failing_checks : List String

pub data AdvanceAction : Type 0 where
  waiting_for_ci ci_failed_fixing conflict updated_branch awaiting_merge merged closed
        retries_exhausted nothing_to_do :
      AdvanceAction

pub record AdvanceOutcome : Type 0 where
  pub issue : ℕ
  pub pull_request : Option ℕ
  pub action : AdvanceAction

-- The part below the tests of mergeability, by the verdict of the checks.
pub advance_checks : RunnerConfig → ChecksVerdict → RunRecord → Journal → AdvanceAction × Journal
advance_checks config pending run journal = (waiting_for_ci, journal)
advance_checks config none_reported run journal = (waiting_for_ci, journal)
advance_checks config failing run journal =
    if leb config.ci_fix_rounds (run.ci_rounds + 1)
    then (retries_exhausted, upsert_run journal (record run { status = blocked }))
    else (ci_failed_fixing, upsert_run journal (record run { ci_rounds = run.ci_rounds + 1 }))
advance_checks config passing run journal = (awaiting_merge, journal)

-- An open pull request, by its mergeability and whether its branch can be updated.
pub advance_open :
    RunnerConfig
    → Mergeability
    → Bool
    → ChecksVerdict
    → RunRecord
    → Journal
    → AdvanceAction × Journal
unfolding advance_checks
advance_open config behind true verdict run journal = (updated_branch, journal)
advance_open config behind false verdict run journal = advance_checks config verdict run journal
advance_open config conflicted updates verdict run journal = (conflict, journal)
advance_open config clean updates verdict run journal = advance_checks config verdict run journal
advance_open config held updates verdict run journal = advance_checks config verdict run journal
advance_open config unknown updates verdict run journal = advance_checks config verdict run journal

pub advance_at :
    RunnerConfig → PullRequestState → Remote → RunRecord → Journal → AdvanceAction × Journal
unfolding advance_open
advance_at config merged_state remote run journal =
    (merged, upsert_run journal (record run { status = done }))
advance_at config closed_state remote run journal =
    (closed, upsert_run journal (record run { status = done }))
advance_at config open_state remote run journal =
    advance_open config remote.mergeability remote.updates remote.verdict run journal

-- The body of the loop, by the run's pull request: the action, and the journal after it.
pub advance_pull :
    RunnerConfig → (ℕ → Remote) → Option ℕ → RunRecord → Journal → AdvanceAction × Journal
unfolding advance_at
advance_pull config remotes none run journal = (nothing_to_do, journal)
advance_pull config remotes (some number) run journal =
    advance_at config (remotes number).state (remotes number) run journal

pub advance_all :
    RunnerConfig → (ℕ → Remote) → List RunRecord → Journal → List AdvanceOutcome × Journal
unfolding advance_pull
advance_all config remotes [] journal = ([], journal)
advance_all config remotes (run ∷ rest) journal =
    let (action, after) = advance_pull config remotes run.pull_request run journal in
    let (outcomes, final) = advance_all config remotes rest after in
    (
      record { issue = run.issue; pull_request = run.pull_request; action = action } ∷ outcomes,
      final,
    )

abbrev pub nothing_in_flight : AdvanceOutcome
nothing_in_flight = record { issue = 0; pull_request = none; action = nothing_to_do }

unfoldable pub advance : RunnerConfig → (ℕ → Remote) → Journal → List AdvanceOutcome × Journal
unfolding advance_all
advance config remotes journal =
    let (outcomes, final) = advance_all config remotes (in_flight journal) journal in
    (if is_empty outcomes then nothing_in_flight ∷ [] else outcomes, final)
