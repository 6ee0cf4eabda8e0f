-- ===== src/Runner/Work/Rounds/Keeping.antt =====
-- What the rounds keep, and how they end: given up, or settled on a change that is verified and
-- approved. The invariant may depend on the number of rounds in which the agent was asked.
use space_elysiajs_orpc.Prelude.{
  All, ℕ, zero, suc, ◌-◌, String, Bool, true, false, Option, none, some, List, [], ◌∷◌, ◌≡◌, refl,
  sym, eqb, ltb, not, is_empty, length, if◌then◌else◌, Bool-cases, inl, inr, concat, show,
}
use space_elysiajs_orpc.Diff.{parse_unified_diff}
use space_elysiajs_orpc.Policy.{LoopPolicy, reviewers_for_risk}
use space_elysiajs_orpc.Risk.{classify_risk_monotonic}
use space_elysiajs_orpc.Review.{ReviewResult, ReviewStatus}
use space_elysiajs_orpc.Regexp.{text_take}
use space_elysiajs_orpc.Runner.Journal.{Journal, AttemptPhase, append_attempt, verify, review}
use space_elysiajs_orpc.Runner.Verify
use space_elysiajs_orpc.Runner.Verify.{
  Verified, RunResult, VerificationOutcome, format_verification,
}
use space_elysiajs_orpc.Runner.Git.Keeping.{
  is_push, changed_files-Keeps, commit_all-Keeps, has_commits_beyond-Keeps,
}
use space_elysiajs_orpc.Runner.Machine.{
  M, Machine, Services, call, Failure, CodingOutcome, implemented, gave_up, CodingTask, ReviewTask,
  implement, git, read_policy, agent_stopped, verification_unavailable, verification_failing,
  reviews_missing, review_blocked, review_unsatisfied, no_change, never_settled, rounds_spent,
}
use space_elysiajs_orpc.Runner.Machine.Laws.{
  Keeps, Leads, Given, trivial-Given, Keeps-bind, Keeps-catch, Keeps-pure, Leads-bind, Runs-bind,
  Runs-after, Runs-if, Leads-pure, Leads-weaker, Leads-of-Keeps,
}
use space_elysiajs_orpc.Runner.Work.{Deps, Job, Local}
use space_elysiajs_orpc.Runner.Work.Keeping.{
  Answered, IsAnswer, IsOwnPlace, IsOwnTask, call-Answered, Kept, IsGood, IsGivenUp, clock-Keeps,
  spend_invocation-Keeps, save-Runs, fail-Runs,
}
use space_elysiajs_orpc.Runner.Work.Reviews.{Gathered, combine}
use space_elysiajs_orpc.Runner.Work.Reviews.Keeping.{gather_reviews-Runs}
use space_elysiajs_orpc.Runner.Work.Rounds.{
  or_nothing, Progress, Change, Settled, RoundEnd, ended, again, settled, LoopEnd, stopped, done,
  max_rounds, give_up, log_attempt, task_of, log_coding, run_coder, nothing_new, commit,
  proposed_policy, classify, verify_options, after_verify, verified, by_verdict, by_reviews,
  have_reviewed, by_verification, after_commit, after_coding, one_round, after_round, run_from,
  run_rounds,
}

-- `left` rounds more than k.
abbrev pub later : ℕ → ℕ → ℕ
later zero k = k
later (suc left) k = later left (suc k)

true_of_not : (b : Bool) → not b ≡ false → b ≡ true
true_of_not true e = refl
true_of_not false e = sym e

module _ {W : Type 0} (deps : Deps) (services : Services W) (job : Job) where
  -- The verification's outcome, from a run of all the steps in some world.
  abbrev pub Ran : Change → VerificationOutcome → Type 0
  Ran change outcome =
      (before after : W) × (Verify.verify (services.exec job.worktree) services.which deps.depth
          (verify_options deps services job change) before
        ≡ some (Verified.returned outcome, after))

  abbrev pub diff_args : List String
  diff_args = "diff" ∷ concat (job.base ∷ "...HEAD" ∷ []) ∷ []

  -- A change whose diff git printed in the worktree, and whose risk is that of the diff.
  pub record IsClassified (change : Change) : Type 0 where
    pub proposed : Option LoopPolicy
    pub output : RunResult
    pub answered : Answered services (git job.worktree diff_args) output
    pub diff_printed : change.diff ≡ output.stdout
    pub classified :
        change.risk
        ≡ classify_risk_monotonic deps.locale_le deps.signals
            (parse_unified_diff change.diff)
            job.issue.labels
            deps.policy
            proposed

  -- What a reviewer of the change is asked.
  abbrev pub review_task : Change → ReviewTask
  review_task change = record {
    worktree = job.worktree;
    issue = job.issue.number;
    title = job.issue.title;
    body = or_nothing job.issue.body;
    base = job.base;
    branch = job.branch;
    diff = change.diff;
    changed_files = change.files;
  }

  -- A change that passed its verification, with all steps available, and that as many reviews
  -- that reviewers gave of it as its risk requires approve together.
  pub record Approved (s : Settled) : Type 0 where
    pub of_diff : IsClassified s.change
    pub ran : Ran s.change s.verification
    pub available : is_empty s.verification.unavailable ≡ true
    pub passed : s.verification.ok ≡ true
    pub reviews : List ReviewResult
    pub given : All (IsAnswer services (review_task s.change)) reviews
    pub enough : ltb (length reviews) (reviewers_for_risk deps.policy s.change.risk.risk) ≡ false
    pub combined : s.review ≡ combine deps.lower reviews deps.policy
    pub approves : s.review.status ≡ ReviewStatus.approve

  abbrev pub EndsWell : (Journal → Type 0) → RoundEnd → Type 0
  EndsWell K (ended outcome) = IsGivenUp deps services job outcome
  EndsWell K (again p) = IsGood deps services job K p.local
  EndsWell K (settled s) = IsGood deps services job K s.local × Approved s

  abbrev pub LoopEndsWell : (Journal → Type 0) → LoopEnd → Type 0
  LoopEndsWell K (stopped outcome) = IsGivenUp deps services job outcome
  LoopEndsWell K (done s) = IsGood deps services job K s.local × Approved s

  module _ (K : Journal → Type 0) (I : Machine W → Type 0) (kept : Kept deps services job K I) where
    give_up-Runs :
        (local : Local) (failure : Failure)
        → IsGood deps services job K local
        → Leads I I (give_up deps services job local failure) (EndsWell K)
    unfolding give_up
    give_up-Runs local failure good =
        Runs-bind I _ _ _ _ (fail-Runs deps services job K I kept local failure good)
          (λ outcome h. Leads-pure I (ended outcome) _ h)

    log_attempt-Runs :
        (local : Local) (phase : AttemptPhase) (good : Bool) (detail : String)
        → IsGood deps services job K local
        → Leads I I
            (log_attempt deps services job local phase good detail)
            (IsGood deps services job K)
    unfolding log_attempt append_attempt
    log_attempt-Runs local phase b detail good =
        Runs-after I _ _ _ (clock-Keeps deps services job K I kept)
          (λ now. save-Runs deps services job K I kept _ good)

    -- Commands that are no push, in a directory of the work's own.
    pub command-Keeps :
        (cwd : String) (args : List String)
        → IsOwnPlace deps job cwd
        → is_push args ≡ false
        → Keeps I (call services (git cwd args))
    command-Keeps cwd args h e = kept.called (git cwd args) (h, λ q. cc) refl

    nothing_new-Keeps : (b : Bool) → Keeps I (nothing_new deps services job b)
    unfolding nothing_new
    nothing_new-Keeps true = Keeps-pure I none
    nothing_new-Keeps false =
        Keeps-bind I _ _
          (has_commits_beyond-Keeps services I (λ c. Keeps I (call services c))
            (IsOwnPlace deps job) (λ c h. h) command-Keeps job.worktree job.base (inl refl))
          (λ beyond. Keeps-pure I (if beyond then none else some no_change))

    commit-Keeps : Keeps I (commit deps services job)
    unfolding commit
    commit-Keeps =
        Keeps-catch I _ _
          (Keeps-bind I _ _
            (commit_all-Keeps services I (λ c. Keeps I (call services c)) (IsOwnPlace deps job)
              (λ c h. h) command-Keeps job.worktree
              (concat (job.issue.title ∷ "\n\nCloses #" ∷ show job.issue.number ∷ [])) (inl refl))
            nothing_new-Keeps)
          (λ message. Keeps-pure I _)

    proposed_policy-Keeps : Keeps I (proposed_policy deps services job)
    unfolding proposed_policy
    proposed_policy-Keeps =
        Keeps-catch I _ _
          (Keeps-bind I _ _ (kept.called (read_policy job.worktree) refl refl)
            (λ parsed. Keeps-pure I _))
          (λ message. Keeps-pure I none)

    classify-Runs : Leads I I (classify deps services job) IsClassified
    unfolding classify
    classify-Runs =
        Runs-after I IsClassified _ _
          (changed_files-Keeps services I (λ c. Keeps I (call services c)) (IsOwnPlace deps job)
            (λ c h. h) command-Keeps job.worktree job.base (inl refl))
          (λ files.
            Runs-bind I (Answered services (git job.worktree diff_args)) IsClassified _ _
              (call-Answered services I (git job.worktree diff_args)
                (command-Keeps job.worktree diff_args (inl refl) refl))
              (λ diff a. Runs-after I IsClassified _ _ proposed_policy-Keeps (λ proposed.
                Leads-pure I
                  (record {
                    files = files;
                    diff = diff.stdout;
                    risk =
                        classify_risk_monotonic deps.locale_le deps.signals
                          (parse_unified_diff diff.stdout) job.issue.labels deps.policy proposed;
                  })
                  IsClassified
                  (record {
                    proposed = proposed;
                    output = diff;
                    answered = a;
                    diff_printed = refl;
                    classified = refl;
                  }))))

    after_verify-Runs :
        (change : Change) (s : Machine W) (r : Option (Verified × W))
        → Verify.verify
            (services.exec job.worktree)
            services.which
            deps.depth
            (verify_options deps services job change)
            s.world
          ≡ r
        → I s
        → I (after_verify deps services job s r).1
          × Given (Ran change) (after_verify deps services job s r).0
    unfolding after_verify
    after_verify-Runs change s none e i = (i, tt)
    after_verify-Runs change s (some (Verified.returned outcome, w)) e i =
        (kept.moved s w i, (s.world, w, e))
    after_verify-Runs change s (some (Verified.rejected message, w)) e i = (kept.moved s w i, tt)

    verified-Runs : (change : Change) → Leads I I (verified deps services job change) (Ran change)
    unfolding verified Leads
    verified-Runs change s i = after_verify-Runs change s _ refl i

    by_verdict-Runs :
        (round : ℕ) (local : Local) (change : Change) (verification : VerificationOutcome)
        (status : ReviewStatus) (verdict : ReviewResult)
        → IsGood deps services job K local
        → (status ≡ ReviewStatus.approve
            → Approved (record {
              local = local;
              verification = verification;
              review = verdict;
              change = change;
            }))
        → Leads I I
            (by_verdict deps services job round local change verification status verdict)
            (EndsWell K)
    unfolding by_verdict
    by_verdict-Runs round local change verification ReviewStatus.blocked verdict good h =
        give_up-Runs local (review_blocked verdict.summary) good
    by_verdict-Runs round local change verification ReviewStatus.request_changes verdict good h =
        Runs-if I _ (eqb round (max_rounds deps services job - 1)) _ _
          (λ _. give_up-Runs local (review_unsatisfied (max_rounds deps services job) verdict) good)
          (λ _.
            Leads-pure I
              (again
                (record { local = local; review = some verdict; verification = some verification }))
              _ good)
    by_verdict-Runs round local change verification ReviewStatus.approve verdict good h =
        Leads-pure I
          (settled (record {
            local = local;
            verification = verification;
            review = verdict;
            change = change;
          }))
          _ (good, h refl)

    by_reviews-Runs :
        (round : ℕ) (local : Local) (change : Change) (verification : VerificationOutcome)
        (reviews : Gathered)
        → IsGood deps services job K local
        → Ran change verification
        → is_empty verification.unavailable ≡ true
        → verification.ok ≡ true
        → IsClassified change
        → All (IsAnswer services (review_task change)) reviews.usable
        → Leads I I
            (by_reviews deps services job round local change verification
              (reviewers_for_risk deps.policy change.risk.risk)
              reviews)
            (EndsWell K)
    unfolding by_reviews
    by_reviews-Runs round local change verification reviews good ran available passed of_diff
          given =
        Runs-if I (EndsWell K)
          (ltb (length reviews.usable) (reviewers_for_risk deps.policy change.risk.risk))
          (give_up deps services job local (
            reviews_missing (length reviews.usable)
              (reviewers_for_risk deps.policy change.risk.risk) reviews.failures))
          (by_verdict deps services job round local change verification
            (combine deps.lower reviews.usable deps.policy).status
            (combine deps.lower reviews.usable deps.policy))
          (λ _. give_up-Runs local _ good)
          (λ enough. by_verdict-Runs round local change verification _ _ good (λ approves. record {
            of_diff = of_diff;
            given = given;
            ran = ran;
            available = available;
            passed = passed;
            reviews = reviews.usable;
            enough = enough;
            combined = refl;
            approves = approves;
          }))

    have_reviewed-Runs :
        (round : ℕ) (local : Local) (change : Change) (verification : VerificationOutcome)
        → IsGood deps services job K local
        → Ran change verification
        → is_empty verification.unavailable ≡ true
        → verification.ok ≡ true
        → IsClassified change
        → Leads I I (have_reviewed deps services job round local change verification) (EndsWell K)
    unfolding have_reviewed
    have_reviewed-Runs round local change verification good ran available passed of_diff =
        Runs-bind I (λ (g : Gathered). All (IsAnswer services (review_task change)) g.usable)
          (EndsWell K) _ _
          (gather_reviews-Runs deps services job K I kept (review_task change) (refl, refl, refl)
            deps.reviewers deps.config.reviewer_retry_rounds
            (reviewers_for_risk deps.policy change.risk.risk))
          (λ reviews given.
            Runs-bind I _ _ _ _
              (log_attempt-Runs local review
                (eqb (length reviews.usable) (reviewers_for_risk deps.policy change.risk.risk))
                (concat (
                  show (length reviews.usable)
                  ∷ "/"
                  ∷ show (reviewers_for_risk deps.policy change.risk.risk)
                  ∷ " usable review(s)"
                  ∷ []))
                good)
              (λ logged h.
                by_reviews-Runs round logged change verification reviews h ran available passed
                  of_diff given))

    by_verification-Runs :
        (round : ℕ) (local : Local) (change : Change) (verification : VerificationOutcome)
        → IsGood deps services job K local
        → Ran change verification
        → IsClassified change
        → Leads I I (by_verification deps services job round local change verification) (EndsWell K)
    unfolding by_verification
    by_verification-Runs round local change verification good ran of_diff =
        Runs-if I (EndsWell K) (not (is_empty verification.unavailable)) _ _
          (λ _. give_up-Runs local (verification_unavailable change.risk.risk verification) good)
          (λ available.
            Runs-if I (EndsWell K) (not verification.ok) _ _
              (λ _.
                Runs-if I (EndsWell K) (eqb round (max_rounds deps services job - 1)) _ _
                  (λ _.
                    give_up-Runs local
                      (verification_failing (max_rounds deps services job) verification) good)
                  (λ _.
                    Leads-pure I
                      (again
                        (record { local = local; review = none; verification = some verification }))
                      _ good))
              (λ passed.
                have_reviewed-Runs round local change verification good ran
                  (true_of_not _ available) (true_of_not _ passed) of_diff))

    after_commit-Runs :
        (round : ℕ) (local : Local) (failure : Option Failure)
        → IsGood deps services job K local
        → Leads I I (after_commit deps services job round local failure) (EndsWell K)
    unfolding after_commit
    after_commit-Runs round local (some failure) good = give_up-Runs local failure good
    after_commit-Runs round local none good =
        Runs-bind I IsClassified _ _ _ classify-Runs (λ change of_diff.
          Runs-bind I _ _ _ _ (verified-Runs change) (λ verification ran.
            Runs-bind I _ _ _ _
              (log_attempt-Runs
                (record local { run = record local.run { risk = some change.risk.risk } }) verify
                verification.ok (text_take 2000 (format_verification verification)) good)
              (λ logged h. by_verification-Runs round logged change verification h ran of_diff)))

    after_coding-Runs :
        (round : ℕ) (local : Local) (coded : CodingOutcome)
        → IsGood deps services job K local
        → Leads I I (after_coding deps services job round local coded) (EndsWell K)
    unfolding after_coding
    after_coding-Runs round local (gave_up reason detail) good =
        give_up-Runs local (agent_stopped reason detail) good
    after_coding-Runs round local (implemented summary) good =
        Runs-after I _ _ _ commit-Keeps (λ failure. after_commit-Runs round local failure good)

  -- The invariant after so many rounds.
  module _ (K : Journal → Type 0) (I : ℕ → Machine W → Type 0)
      (kept : (k : ℕ) → Kept deps services job K (I k))
      (weaker : (k : ℕ) (s : Machine W) → I k s → I (suc k) s)
      (asked : (k : ℕ) (task : CodingTask) (s : Machine W)
        → IsOwnTask job task
        → I k s
        → I (suc k) (call services (implement task) s).1) where
    asked-Leads :
        (k : ℕ) (task : CodingTask)
        → IsOwnTask job task
        → Leads (I k) (I (suc k)) (call services (implement task)) (λ _. Unit)
    unfolding Leads
    asked-Leads k task own s i =
        (asked k task s own i, trivial-Given (call services (implement task) s).0)

    log_coding-Runs :
        (k round : ℕ) (p : Progress) (coded : CodingOutcome)
        → IsGood deps services job K p.local
        → Leads
            (I k)
            (I k)
            (log_coding deps services job round p coded)
            (IsGood deps services job K)
    unfolding log_coding
    log_coding-Runs k round p coded good =
        log_attempt-Runs K (I k) (kept k)
          (record p.local { run = record p.local.run { fix_rounds = round } }) _ _ _ good

    run_coder-Leads :
        (k round : ℕ) (p : Progress)
        → IsGood deps services job K p.local
        → Leads
            (I k)
            (I (suc k))
            (run_coder deps services job round p)
            (λ r. IsGood deps services job K r.1)
    unfolding run_coder
    run_coder-Leads k round p good =
        Leads-bind (I k) (I k) (I (suc k)) (λ _. Unit) _ _ _
          (Leads-of-Keeps (I k) _ (spend_invocation-Keeps deps services job K (I k) (kept k)))
          (weaker k)
          (λ _ _.
            Leads-bind (I k) (I (suc k)) (I (suc k)) (λ _. Unit) _ _ _
              (asked-Leads k (task_of deps services job round p) (refl, refl, refl)) (λ s i. i)
              (λ coded _.
                Runs-bind (I (suc k)) _ _ _ _ (log_coding-Runs (suc k) round p coded good)
                  (λ local h. Leads-pure (I (suc k)) (coded, local) _ h)))

    one_round-Leads :
        (k round : ℕ) (p : Progress)
        → IsGood deps services job K p.local
        → Leads (I k) (I (suc k)) (one_round deps services job round p) (EndsWell K)
    unfolding one_round
    one_round-Leads k round p good =
        Leads-bind (I k) (I (suc k)) (I (suc k)) _ _ _ _ (run_coder-Leads k round p good) (λ s i. i)
          (λ r h. after_coding-Runs K (I (suc k)) (kept (suc k)) round r.1 r.0 h)

    pub weaker_by : (left k : ℕ) (s : Machine W) → I k s → I (later left k) s
    weaker_by zero k s i = i
    weaker_by (suc left) k s i = weaker_by left (suc k) s (weaker k s i)

    after_round-Leads :
        (k : ℕ) (N : Machine W → Type 0) (rest : Progress → M (Machine W) LoopEnd) (end : RoundEnd)
        → ((s : Machine W) → I k s → N s)
        → ((p : Progress)
            → IsGood deps services job K p.local
            → Leads (I k) N (rest p) (LoopEndsWell K))
        → EndsWell K end
        → Leads (I k) N (after_round deps services job rest end) (LoopEndsWell K)
    unfolding after_round
    after_round-Leads k N rest (ended outcome) w r h = Leads-weaker (I k) N (stopped outcome) _ w h
    after_round-Leads k N rest (again p) w r h = r p h
    after_round-Leads k N rest (settled s) w r h = Leads-weaker (I k) N (done s) _ w h

    run_from-Leads :
        (left k round : ℕ) (p : Progress)
        → IsGood deps services job K p.local
        → Leads (I k) (I (later left k)) (run_from deps services job left round p) (LoopEndsWell K)
    unfolding run_from
    run_from-Leads zero k round p good =
        Runs-bind (I k) _ _ _ _
          (fail-Runs deps services job K (I k) (kept k) p.local never_settled good)
          (λ outcome h. Leads-pure (I k) (stopped outcome) _ h)
    run_from-Leads (suc left) k round p good =
        Leads-bind (I k) (I (suc k)) (I (later left (suc k))) _ _ _ _
          (one_round-Leads k round p good) (weaker_by left (suc k))
          (λ end h.
            after_round-Leads (suc k) (I (later left (suc k)))
              (run_from deps services job left (suc round)) end (weaker_by left (suc k))
              (λ q good_q. run_from-Leads left (suc k) (suc round) q good_q) h)

    pub run_rounds-Leads :
        (k : ℕ) (local : Local)
        → IsGood deps services job K local
        → Leads
            (I k)
            (I (later (max_rounds deps services job - job.start_round) k))
            (run_rounds deps services job local)
            (LoopEndsWell K)
    unfolding run_rounds
    run_rounds-Leads k local good =
        elim (Bool-cases (ltb job.start_round (max_rounds deps services job))) [
          | inl e ↦ rw e (
              run_from-Leads _ k job.start_round
                (record { local = local; review = none; verification = none }) good)
          | inr e ↦ rw e (
              Leads-bind (I k) (I k) _ _ _ _ _
                (fail-Runs deps services job K (I k) (kept k) local
                  (rounds_spent (max_rounds deps services job)) good)
                (weaker_by (max_rounds deps services job - job.start_round) k)
                (λ outcome h.
                  Leads-weaker (I k) _ (stopped outcome) _
                    (weaker_by (max_rounds deps services job - job.start_round) k) h))
        ]
