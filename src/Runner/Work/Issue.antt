-- ===== src/Runner/Work/Issue.antt =====
-- tooling/local-runner/src/orchestrator.ts, workIssue: one issue from its claim to the pull request.
pub mod Keeping
pub mod Safety
use space_elysiajs_orpc.Prelude.{
  ℕ, ◌-◌, String, Bool, true, false, Option, none, some, List, [], ◌∷◌, eqb, if◌then◌else◌, concat,
  show,
}
use space_elysiajs_orpc.Eligibility.{IssueSummary}
use space_elysiajs_orpc.Runner.Branch.{branch_name, worktree_name}
use space_elysiajs_orpc.Runner.Github.{GhPullRequest, says_open}
use space_elysiajs_orpc.Runner.Journal.{
  RunRecord, RunStatus, Journal, find_run, append_attempt, publish,
}
use space_elysiajs_orpc.Runner.Journal
use space_elysiajs_orpc.Runner.Verify.{RunResult}
use space_elysiajs_orpc.Runner.Git.{
  fetch_base, ensure_worktree, rebase_onto_base, push_branch, complaint,
}
use space_elysiajs_orpc.Runner.Machine.{
  M, ◌>>=◌, ◌>>◌, pure, catch, Machine, Services, call, clock, read_journal, Failure, Feedback,
  add_labels, remove_label, install, pull_request_for_branch, create_pull_request,
  enable_auto_merge, PullRequestBody, worktree_unprepared, install_failed, push_failed, push_threw,
}
use space_elysiajs_orpc.Runner.Work.{
  Deps, IssueOutcome, IssueStatus, opened, updated, Job, Local, save, fail,
}
use space_elysiajs_orpc.Runner.Work.Rounds.{LoopEnd, stopped, done, Settled, run_rounds}
use space_elysiajs_orpc.Detect.{trim}
use space_elysiajs_orpc.Regexp.{size, text_drop}

-- `WorkOptions`, with the first round given.
pub record WorkOptions : Type 0 where
  pub start_round : ℕ
  pub feedback : Option Feedback

abbrev pub from_the_start : WorkOptions
from_the_start = record { start_round = 0; feedback = none }

abbrev pub job_of : Deps → IssueSummary → WorkOptions → Job
job_of deps issue options = record {
  issue = issue;
  branch = branch_name deps.fold issue.number issue.title;
  worktree = deps.resolve (worktree_name issue.number);
  base = concat (deps.remote ∷ "/" ∷ deps.default_branch ∷ []);
  start_round = options.start_round;
  feedback = options.feedback;
}

module _ {W : Type 0} (deps : Deps) (services : Services W) (job : Job) where
  -- `findRun(journal, issue.number) ?? { … }`, made current.
  claimed_run : ℕ → Option RunRecord → RunRecord
  claimed_run now (some run) = record run {
    branch = job.branch;
    worktree = job.worktree;
    status = RunStatus.in_progress;
  }
  claimed_run now none = record {
    issue = job.issue.number;
    branch = job.branch;
    worktree = job.worktree;
    started_at = services.iso now;
    updated_at = services.iso now;
    status = RunStatus.in_progress;
    fix_rounds = 0;
    ci_rounds = 0;
    conflict_rounds = 0;
    pull_request = none;
    risk = none;
    attempts = [];
  }

  claim : M (Machine W) Local
  unfolding claimed_run
  claim = do
    call services (add_labels job.issue.number ("agent:in-progress" ∷ []))
    call services (remove_label job.issue.number "agent:ready")
    journal ← read_journal
    now ← clock services
    save (record { journal = journal; run = claimed_run now (find_run journal job.issue.number) })

  -- Why the worktree is not ready, if it is not.
  prepare : M (Machine W) (Option Failure)
  prepare =
      catch
        (do
          fetch_base services deps.repository deps.remote deps.default_branch
          _ ← ensure_worktree services (record {
            repository = deps.repository;
            path = job.worktree;
            branch = job.branch;
            base = job.base;
          })
          rebase_onto_base services job.worktree job.base
          pure none)
        (λ message. pure (some (worktree_unprepared message)))

  -- `installed.stderr.trim().slice(-2000)`
  abbrev last_of : String → String
  last_of text = text_drop (size text - 2000) text

  -- Why the branch is not pushed, if it is not.
  push : M (Machine W) (Option Failure)
  push =
      catch
        (do
          pushed ← push_branch services job.worktree deps.remote job.branch
          pure (if eqb pushed.code 0 then none else some (push_failed (complaint pushed))))
        (λ message. pure (some (push_threw message)))

  abbrev pub body_of : Settled → PullRequestBody
  body_of settled = record {
    issue = job.issue;
    files = settled.change.files;
    verification = settled.verification;
    review = settled.review;
    risk = settled.change.risk;
  }

  open_new : Settled → M (Machine W) (ℕ × IssueStatus)
  open_new settled = do
    number ←
        call services
          (create_pull_request deps.default_branch job.branch job.issue.title (body_of settled))
    pure (number, opened)

  -- The pull request that the issue has, or a new one.
  reuse_or_open : Settled → Option GhPullRequest → M (Machine W) (ℕ × IssueStatus)
  unfolding open_new
  reuse_or_open settled none = open_new settled
  reuse_or_open settled (some existing) =
      if says_open deps.upper deps.lower existing
      then pure (existing.number, updated)
      else open_new settled

  published_run : Settled → ℕ → ℕ → RunRecord
  published_run settled now number =
      record (append_attempt settled.local.run (record {
        at = services.iso now;
        phase = publish;
        outcome = Journal.ok;
        detail = concat ("Pull request #" ∷ show number ∷ []);
      })) {
        status = RunStatus.awaiting_review;
        pull_request = some number;
        risk = some settled.change.risk.risk;
      }

  abbrev pub published : Settled → ℕ → IssueStatus → IssueOutcome
  published settled number status = record {
    issue = job.issue.number;
    branch = job.branch;
    status = status;
    pull_request = some number;
    risk = some settled.change.risk;
    failure = none;
  }

  publish_change : Settled → M (Machine W) IssueOutcome
  unfolding reuse_or_open published_run
  publish_change settled = do
    existing ← call services (pull_request_for_branch job.branch)
    (number, status) ← reuse_or_open settled existing
    now ← clock services
    _ ← save (record settled.local { run = published_run settled now number })
    call services (remove_label job.issue.number "agent:in-progress")
    call services (add_labels job.issue.number ("agent:review" ∷ []))
    catch (call services (enable_auto_merge number)) (λ _. pure tt)
    pure (published settled number status)

  unless_failed : Local → M (Machine W) IssueOutcome → Option Failure → M (Machine W) IssueOutcome
  unless_failed local rest none = rest
  unless_failed local rest (some failure) = fail services job local failure

  after_rounds : LoopEnd → M (Machine W) IssueOutcome
  unfolding push publish_change unless_failed
  after_rounds (stopped outcome) = pure outcome
  after_rounds (done settled) = do
    failure ← push
    unless_failed settled.local (publish_change settled) failure

  work : Local → M (Machine W) IssueOutcome
  unfolding after_rounds
  work local = do end ← run_rounds deps services job local; after_rounds end

  abbrev pub install_failure : RunResult → Option Failure
  install_failure installed =
      if eqb installed.code 0 then none else some (install_failed (last_of (trim installed.stderr)))

  install_and_work : Local → M (Machine W) IssueOutcome
  unfolding unless_failed work
  install_and_work local = do
    installed ← call services (install job.worktree)
    unless_failed local (work local) (install_failure installed)

  unfoldable pub work_job : M (Machine W) IssueOutcome
  unfolding claim prepare unless_failed install_and_work
  work_job = do
    local ← claim
    failure ← prepare
    unless_failed local (install_and_work local) failure

unfoldable pub work_issue :
    {W : Type 0} → Deps → Services W → IssueSummary → WorkOptions → M (Machine W) IssueOutcome
unfolding work_job
work_issue deps services issue options = work_job deps services (job_of deps issue options)
