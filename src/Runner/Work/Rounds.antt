-- ===== src/Runner/Work/Rounds.antt =====
-- tooling/local-runner/src/orchestrator.ts, workIssue: the loop over the agent's rounds. Each round
-- codes, commits, classifies, verifies and has the change reviewed.
pub mod Keeping
use space_elysiajs_orpc.Prelude.{
  ℕ, zero, suc, ◌+◌, ◌-◌, String, Bool, true, false, Option, none, some, List, [], ◌∷◌, eqb, ltb,
  not, is_empty, length, if◌then◌else◌, concat, show,
}
use space_elysiajs_orpc.Policy.{LoopPolicy, RiskLevel, reviewers_for_risk}
use space_elysiajs_orpc.Diff.{parse_unified_diff}
use space_elysiajs_orpc.Review.{ReviewResult, ReviewStatus}
use space_elysiajs_orpc.Review
use space_elysiajs_orpc.Risk.{RiskAssessment, classify_risk_monotonic}
use space_elysiajs_orpc.Regexp.{text_take}
use space_elysiajs_orpc.Runner.Journal.{
  RunRecord, AttemptPhase, AttemptOutcome, append_attempt, implement, fix, verify, review,
}
use space_elysiajs_orpc.Runner.Journal
use space_elysiajs_orpc.Runner.Verify
use space_elysiajs_orpc.Runner.Verify.{
  Verified, returned, rejected, VerificationOutcome, VerifyOptions, format_verification,
}
use space_elysiajs_orpc.Runner.Git.{git_in, commit_all, has_commits_beyond, changed_files}
use space_elysiajs_orpc.Runner.Machine
use space_elysiajs_orpc.Runner.Machine.{
  M, ◌>>=◌, ◌>>◌, pure, catch, Result, Machine, Services, call, clock, spend_invocation, Failure,
  Feedback, CodingOutcome, CodingTask, implemented, gave_up, read_policy, no_change, commit_failed,
  agent_stopped, verification_unavailable, verification_failing, reviews_missing, review_blocked,
  review_unsatisfied, never_settled, rounds_spent,
}
use space_elysiajs_orpc.Runner.Work.{Deps, IssueOutcome, Job, Local, save, fail}
use space_elysiajs_orpc.Runner.Work.Reviews.{Gathered, gather_reviews, combine}

-- The variables that live across rounds.
pub record Progress : Type 0 where
  pub local : Local
  pub review : Option ReviewResult
  pub verification : Option VerificationOutcome

-- The change that a round's commit made.
pub record Change : Type 0 where
  pub files : List String
  pub diff : String
  pub risk : RiskAssessment

-- What the loop leaves behind when it settles.
pub record Settled : Type 0 where
  pub local : Local
  pub verification : VerificationOutcome
  pub review : ReviewResult
  pub change : Change

pub data RoundEnd : Type 0 where
  ended : IssueOutcome → RoundEnd
  again : Progress → RoundEnd
  settled : Settled → RoundEnd

pub data LoopEnd : Type 0 where
  stopped : IssueOutcome → LoopEnd
  done : Settled → LoopEnd

-- The attempt's text and outcome, for what the coding agent answered.
abbrev attempt_text : CodingOutcome → String
attempt_text (implemented summary) = summary
attempt_text (gave_up reason detail) = concat (reason ∷ ": " ∷ detail ∷ [])

abbrev outcome_if : Bool → AttemptOutcome
outcome_if b = if b then AttemptOutcome.ok else AttemptOutcome.failed

abbrev is_implemented : CodingOutcome → Bool
is_implemented (implemented _) = true
is_implemented (gave_up _ _) = false

abbrev pub or_nothing : Option String → String
or_nothing none = ""
or_nothing (some s) = s

module _ {W : Type 0} (deps : Deps) (services : Services W) (job : Job) where
  abbrev pub max_rounds : ℕ
  max_rounds = deps.config.coding_fix_rounds

  give_up : Local → Failure → M (Machine W) RoundEnd
  give_up local failure = do outcome ← fail services job local failure; pure (ended outcome)

  -- `record = appendAttempt(record, …)` and `save()`.
  log_attempt : Local → AttemptPhase → Bool → String → M (Machine W) Local
  log_attempt local phase good detail = do
    now ← clock services
    save (record local {
      run = append_attempt local.run (record {
        at = services.iso now;
        phase = phase;
        outcome = outcome_if good;
        detail = detail;
      });
    })

  abbrev pub task_of : ℕ → Progress → CodingTask
  task_of round p = record {
    issue = job.issue.number;
    title = job.issue.title;
    body = or_nothing job.issue.body;
    worktree = job.worktree;
    branch = job.branch;
    round = round;
    review = p.review;
    verification = p.verification;
    feedback = if eqb round job.start_round then job.feedback else none;
  }

  log_coding : ℕ → Progress → CodingOutcome → M (Machine W) Local
  unfolding log_attempt
  log_coding round p coded =
      log_attempt (record p.local { run = record p.local.run { fix_rounds = round } })
        (if eqb round 0 then implement else fix) (is_implemented coded)
        (text_take 2000 (attempt_text coded))

  -- The agent's turn.
  run_coder : ℕ → Progress → M (Machine W) (CodingOutcome × Local)
  unfolding log_coding
  run_coder round p = do
    spend_invocation services
    coded ← call services (Machine.implement (task_of round p))
    local ← log_coding round p coded
    pure (coded, local)

  nothing_new : Bool → M (Machine W) (Option Failure)
  nothing_new true = pure none
  nothing_new false = do
    beyond ← has_commits_beyond services job.worktree job.base
    pure (if beyond then none else some no_change)

  -- The block that commits: why the round ends there, if it does.
  commit : M (Machine W) (Option Failure)
  unfolding nothing_new
  commit =
      catch
        (do
          committed ←
              commit_all services job.worktree
                (concat (job.issue.title ∷ "\n\nCloses #" ∷ show job.issue.number ∷ []))
          nothing_new committed)
        (λ message. pure (some (commit_failed message)))

  -- `proposedPolicy`
  proposed_policy : M (Machine W) (Option LoopPolicy)
  proposed_policy =
      catch
        (do
          parsed ← call services (read_policy job.worktree)
          pure (elim parsed [
            | none ↦ none
            | some policy ↦ if deps.same_policy policy deps.policy then none else some policy
          ]))
        (λ _. pure none)

  classify : M (Machine W) Change
  unfolding proposed_policy
  classify = do
    files ← changed_files services job.worktree job.base
    diff ← git_in services job.worktree ("diff" ∷ concat (job.base ∷ "...HEAD" ∷ []) ∷ [])
    proposed ← proposed_policy
    pure (record {
      files = files;
      diff = diff.stdout;
      risk =
          classify_risk_monotonic deps.locale_le deps.signals (parse_unified_diff diff.stdout)
            job.issue.labels deps.policy proposed;
    })

  -- `verify` of verify.ts, run in the worktree. A tier inheritance without end exhausts the stack,
  -- which throws; so does a command that cannot be started.
  abbrev pub verify_options : Change → VerifyOptions
  verify_options change = record {
    risk = some change.risk.risk;
    policy = some deps.policy;
    changed_files = some change.files;
    only = none;
  }

  after_verify : Machine W → Option (Verified × W) → Result VerificationOutcome × Machine W
  after_verify s none = (Result.thrown "Maximum call stack size exceeded.", s)
  after_verify s (some (returned outcome, world)) = (Result.ok outcome, record s { world = world })
  after_verify s (some (rejected message, world)) =
      (Result.thrown message, record s { world = world })

  verified : Change → M (Machine W) VerificationOutcome
  unfolding after_verify
  verified change s = after_verify s (
      Verify.verify (services.exec job.worktree) services.which deps.depth (verify_options change)
        s.world)

  -- The end of a round, by the verdict of the reviews.
  by_verdict :
      ℕ
      → Local
      → Change
      → VerificationOutcome
      → ReviewStatus
      → ReviewResult
      → M (Machine W) RoundEnd
  unfolding give_up
  by_verdict round local change verification ReviewStatus.blocked verdict =
      give_up local (review_blocked verdict.summary)
  by_verdict round local change verification ReviewStatus.request_changes verdict =
      if eqb round (max_rounds - 1)
      then give_up local (review_unsatisfied max_rounds verdict)
      else pure (
          again (record { local = local; review = some verdict; verification = some verification }))
  by_verdict round local change verification ReviewStatus.approve verdict = pure (
      settled
        (record { local = local; verification = verification; review = verdict; change = change }))

  by_reviews : ℕ → Local → Change → VerificationOutcome → ℕ → Gathered → M (Machine W) RoundEnd
  unfolding give_up by_verdict
  by_reviews round local change verification required reviews =
      if ltb (length reviews.usable) required
      then give_up local (reviews_missing (length reviews.usable) required reviews.failures)
      else let verdict = combine deps.lower reviews.usable deps.policy in
        by_verdict round local change verification verdict.status verdict

  have_reviewed : ℕ → Local → Change → VerificationOutcome → M (Machine W) RoundEnd
  unfolding by_reviews log_attempt
  have_reviewed round local change verification = do
    let required = reviewers_for_risk deps.policy change.risk.risk
    reviews ←
        gather_reviews services
          (record {
            worktree = job.worktree;
            issue = job.issue.number;
            title = job.issue.title;
            body = or_nothing job.issue.body;
            base = job.base;
            branch = job.branch;
            diff = change.diff;
            changed_files = change.files;
          })
          deps.reviewers deps.config.reviewer_retry_rounds required
    logged ←
        log_attempt local review (eqb (length reviews.usable) required)
          (concat (show (length reviews.usable) ∷ "/" ∷ show required ∷ " usable review(s)" ∷ []))
    by_reviews round logged change verification required reviews

  by_verification : ℕ → Local → Change → VerificationOutcome → M (Machine W) RoundEnd
  unfolding give_up have_reviewed
  by_verification round local change verification =
      if not (is_empty verification.unavailable)
      then give_up local (verification_unavailable change.risk.risk verification)
      else if not verification.ok
      then (if eqb round (max_rounds - 1)
          then give_up local (verification_failing max_rounds verification)
          else pure
              (again (record { local = local; review = none; verification = some verification })))
      else have_reviewed round local change verification

  after_commit : ℕ → Local → Option Failure → M (Machine W) RoundEnd
  unfolding give_up classify verified log_attempt by_verification
  after_commit round local (some failure) = give_up local failure
  after_commit round local none = do
    change ← classify
    verification ← verified change
    logged ←
        log_attempt (record local { run = record local.run { risk = some change.risk.risk } })
          verify verification.ok (text_take 2000 (format_verification verification))
    by_verification round logged change verification

  after_coding : ℕ → Local → CodingOutcome → M (Machine W) RoundEnd
  unfolding give_up commit after_commit
  after_coding round local (gave_up reason detail) = give_up local (agent_stopped reason detail)
  after_coding round local (implemented summary) = do
    failure ← commit
    after_commit round local failure

  one_round : ℕ → Progress → M (Machine W) RoundEnd
  unfolding run_coder after_coding
  one_round round p = do (coded, local) ← run_coder round p; after_coding round local coded

  -- How the loop goes on after a round: by the rest of it, if another is due.
  after_round : (Progress → M (Machine W) LoopEnd) → RoundEnd → M (Machine W) LoopEnd
  after_round rest (ended outcome) = pure (stopped outcome)
  after_round rest (again p) = rest p
  after_round rest (settled s) = pure (done s)

  -- The loop, with so many rounds left, from a round on. Past its end nothing is settled.
  run_from : ℕ → ℕ → Progress → M (Machine W) LoopEnd
  unfolding one_round after_round
  run_from zero round p = do
    outcome ← fail services job p.local never_settled
    pure (stopped outcome)
  run_from (suc left) round p = do
    end ← one_round round p
    after_round (run_from left (suc round)) end

  unfoldable pub run_rounds : Local → M (Machine W) LoopEnd
  unfolding run_from
  run_rounds local =
      if ltb job.start_round max_rounds
      then run_from (max_rounds - job.start_round) job.start_round
          (record { local = local; review = none; verification = none })
      else (do outcome ← fail services job local (rounds_spent max_rounds); pure (stopped outcome))
