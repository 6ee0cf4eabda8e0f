-- ===== src/Runner/Session/Moves.antt =====
-- tooling/local-runner/src/orchestrator.ts, advance with the calls it makes: each run in flight is
-- moved by what GitHub answers, and a call that throws ends it. The journal is written by the run's
-- move alone.
pub mod Alone
use space_elysiajs_orpc.Prelude.{
  ℕ, ◌+◌, String, Bool, true, false, Option, none, some, List, [], ◌∷◌, is_empty, ◌==◌,
  if◌then◌else◌, concat,
}
use space_elysiajs_orpc.Policy.{RiskLevel}
use space_elysiajs_orpc.Runner.Advance.{
  AdvanceOutcome, AdvanceAction, merged, closed, retries_exhausted, nothing_to_do, Remote,
  PullRequestState, open_state, Mergeability, behind, advance_at, nothing_in_flight,
}
use space_elysiajs_orpc.Runner.Branch.{worktree_name}
use space_elysiajs_orpc.Runner.Github.{GhPullRequest, state_of, mergeability_of, summarise_checks}
use space_elysiajs_orpc.Runner.Journal.{RunRecord, Journal, in_flight}
use space_elysiajs_orpc.Runner.Machine.{
  M, ◌>>=◌, ◌>>◌, pure, catch, Machine, Services, call, git, read_journal, write_journal,
  view_pull_request, update_branch, remove_label, add_labels, comment, checks_failing,
}
use space_elysiajs_orpc.Runner.Work.{Deps}

pub record Moved : Type 0 where
  pub outcome : AdvanceOutcome
  pub risk : Option RiskLevel

abbrev pub moved_by : RunRecord → AdvanceAction → Moved
moved_by run action = record {
  outcome = record { issue = run.issue; pull_request = run.pull_request; action = action };
  risk = run.risk;
}

module _ {W : Type 0} (deps : Deps) (services : Services W) where
  -- `updateBranch`, where it is tried: whether it succeeded.
  try_update : ℕ → Mergeability → M (Machine W) Bool
  try_update number behind =
      catch (do call services (update_branch number); pure true) (λ _. pure false)
  try_update number _ = pure false

  -- What there is to know of a pull request before the run is moved.
  observe_pull : ℕ → GhPullRequest → PullRequestState → M (Machine W) Remote
  unfolding try_update
  observe_pull number pull_request open_state = do
    viewed ← call services (view_pull_request number)
    let mergeability = mergeability_of deps.upper deps.lower viewed
    updates ← try_update number mergeability
    let checks = summarise_checks deps.upper deps.lower pull_request
    pure (record {
      state = open_state;
      mergeability = mergeability;
      updates = updates;
      verdict = checks.verdict;
      failing_checks = checks.failing_checks;
    })
  observe_pull number pull_request state =
      let checks = summarise_checks deps.upper deps.lower pull_request in
      pure (record {
        state = state;
        mergeability = mergeability_of deps.upper deps.lower pull_request;
        updates = false;
        verdict = checks.verdict;
        failing_checks = checks.failing_checks;
      })

  -- `removeWorktree(…).catch(() => {})` of `finish`, for the runner's own worktree alone.
  remove_own : RunRecord → M (Machine W) Unit
  remove_own run =
      if run.worktree == deps.resolve (worktree_name run.issue)
      then catch
          (do
            _ ←
                call services
                  (git deps.repository ("worktree" ∷ "remove" ∷ "--force" ∷ run.worktree ∷ []))
            pure tt)
          (λ _. pure tt)
      else pure tt

  -- The calls before the journal is written, and those after it.
  before_write : AdvanceAction → RunRecord → M (Machine W) Unit
  unfolding remove_own
  before_write merged run = remove_own run
  before_write closed run = remove_own run
  before_write _ run = pure tt

  after_write : AdvanceAction → List String → RunRecord → M (Machine W) Unit
  after_write retries_exhausted failing_checks run = do
    call services (remove_label run.issue "agent:review")
    call services (add_labels run.issue ("agent:blocked" ∷ []))
    call services (comment run.issue (checks_failing (run.ci_rounds + 1) failing_checks))
  after_write _ failing_checks run = pure tt

  apply_move : RunRecord → Remote → M (Machine W) AdvanceAction
  unfolding before_write after_write
  apply_move run remote = do
    journal ← read_journal
    let (action, after) = advance_at deps.config remote.state remote run journal
    before_write action run
    write_journal after
    after_write action remote.failing_checks run
    pure action

  move_run : RunRecord → Option ℕ → M (Machine W) AdvanceAction
  unfolding observe_pull apply_move
  move_run run none = pure nothing_to_do
  move_run run (some number) = do
    pull_request ← call services (view_pull_request number)
    remote ← observe_pull number pull_request (state_of deps.upper deps.lower pull_request)
    apply_move run remote

  move_all : List RunRecord → M (Machine W) (List Moved)
  unfolding move_run
  move_all [] = pure []
  move_all (run ∷ rest) = do
    action ← move_run run run.pull_request
    later ← move_all rest
    pure (moved_by run action ∷ later)

  unfoldable pub advance_machine : M (Machine W) (List Moved)
  unfolding move_all
  advance_machine = do
    journal ← read_journal
    moves ← move_all (in_flight journal)
    pure
        (if is_empty moves then record { outcome = nothing_in_flight; risk = none } ∷ [] else moves)
