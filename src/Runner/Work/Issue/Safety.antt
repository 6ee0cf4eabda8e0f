-- ===== src/Runner/Work/Issue/Safety.antt =====
-- What the work on one issue guarantees, whatever GitHub, git and the agents answer.
use space_elysiajs_orpc.Prelude.{
  ℕ, zero, suc, ◌+◌, ◌-◌, ◌≤◌, ◌⊎◌, false, some, List, ◌∷◌, ◌++◌, ◌≡◌, refl, arith, length, All,
  filter,
}
use space_elysiajs_orpc.Policy.{TierStep, reviewers_for_risk}
use space_elysiajs_orpc.Review.{ReviewResult, ReviewStatus}
use space_elysiajs_orpc.Risk.{RiskAssessment}
use space_elysiajs_orpc.Eligibility.{IssueSummary}
use space_elysiajs_orpc.Runner.Journal.Lookup.{OnlyInFlight, upsert_run-OnlyInFlight}
use space_elysiajs_orpc.Runner.Verify.{tier_steps}
use space_elysiajs_orpc.Runner.Verify
use space_elysiajs_orpc.Runner.Verify.Outcomes.{Passes}
use space_elysiajs_orpc.Runner.Machine.{Machine, Services, call, Call}
use space_elysiajs_orpc.Runner.Machine.Laws.{Keeps, Leads}
use space_elysiajs_orpc.Runner.Work.{Deps, IssueOutcome, opened, updated, Job}
use space_elysiajs_orpc.Runner.Work.Keeping.{
  IsOwnPull, IsAnswer, Kept, MayCall, IsGivenUp, is_implement,
}
use space_elysiajs_orpc.Runner.Work.Reviews.{combine}
use space_elysiajs_orpc.Runner.Work.Rounds.{Change, verify_options}
use space_elysiajs_orpc.Runner.Work.Rounds.Keeping.{IsClassified, review_task, later}
use space_elysiajs_orpc.Runner.Work.Issue.{WorkOptions, job_of, work_issue}
use space_elysiajs_orpc.Runner.Work.Issue.Keeping.{rounds_left, work_job-Leads}

module _ {W : Type 0} (deps : Deps) (services : Services W) (job : Job) where
  -- A change of which some run of the verification passed all the steps of its risk's tier, and which
  -- as many reviews as that risk requires approve together. Its diff is what git printed in the
  -- worktree, its risk that of the diff, and each review was given by a reviewer who was asked for
  -- one of this diff.
  pub record IsVerified (risk : RiskAssessment) : Type 0 where
    pub change : Change
    pub classified : change.risk ≡ risk
    pub world : W
    pub of_diff : IsClassified deps services job change
    pub passes :
        (steps : List TierStep)
        → tier_steps deps.depth (verify_options deps services job change) ≡ some steps
        → Passes
            (services.exec job.worktree)
            services.which
            (verify_options deps services job change)
            steps
            world
    pub reviews : List ReviewResult
    pub given : All (IsAnswer services (review_task deps services job change)) reviews
    pub enough : reviewers_for_risk deps.policy risk.risk ≤ length reviews
    pub approved : (combine deps.lower reviews deps.policy).status ≡ ReviewStatus.approve

  -- How the work ends where it does not throw.
  pub data Ends (outcome : IssueOutcome) : Type 0 where
    gives_up : IsGivenUp deps services job outcome → Ends outcome
    publishes :
        (number : ℕ) (risk : RiskAssessment)
        → ((outcome.status ≡ opened) ⊎ (outcome.status ≡ updated))
        → outcome.issue ≡ job.issue.number
        → outcome.pull_request ≡ some number
        → IsOwnPull deps services job number
        → outcome.risk ≡ some risk
        → IsVerified risk
        → Ends outcome

-- How often the coding agent was asked.
abbrev pub asked : List Call → ℕ
asked calls = length (filter is_implement calls)

AtMost : {W : Type 0} → ℕ → ℕ → Machine W → Type 0
AtMost n k s = asked s.calls ≤ k + n

asked-other :
    (c : Call) (calls : List Call) → is_implement c ≡ false → asked (c ∷ calls) ≡ asked calls
asked-other c calls e = rw e refl

AtMost-Kept :
    {W : Type 0} (deps : Deps) (services : Services W) (job : Job) (n k : ℕ)
    → Kept deps services job (λ _. Unit) (AtMost n k)
unfolding Keeps AtMost call
AtMost-Kept deps services job n k = record {
  called = λ c may e s i. omega (arith, asked-other c s.calls e, i);
  moved = λ s w i. i;
  spent = λ s b i. i;
  readable = λ s i. tt;
  written = λ s j k i. i;
  upserted = λ j run e k. tt;
}

later-eq : (left k : ℕ) → later left k ≡ left + k
later-eq zero k = omega arith
later-eq (suc left) k = omega (arith, later-eq left (suc k))

-- Work on an issue asks the coding agent at most once for each round that the issue has left,
-- whether it throws or not.
pub work_issue-asked :
    {W : Type 0} (deps : Deps) (services : Services W) (issue : IssueSummary)
    (options : WorkOptions) (s : Machine W)
    → asked (work_issue deps services issue options s).1.calls
      ≤ deps.config.coding_fix_rounds - options.start_round + asked s.calls
unfolding work_issue Leads AtMost call
work_issue-asked deps services issue options s =
    let job = job_of deps issue options in
    let kept =
      (work_job-Leads deps services job (λ _. Unit) (AtMost (asked s.calls))
        (AtMost-Kept deps services job (asked s.calls)) (λ k t i. omega (arith, i))
        (λ k task t own i. omega (arith, i)) 0 s (omega arith)).0 in
    omega (arith, kept, later-eq (rounds_left deps services job) 0)

-- The calls made since a state.
Made : {W : Type 0} → Deps → Services W → Job → Machine W → Machine W → Type 0
Made deps services job s t =
    (made : List Call) × (t.calls ≡ made ++ s.calls) × All (MayCall deps services job) made

Alone : {W : Type 0} → ℕ → Machine W → Type 0
Alone n s = OnlyInFlight n s.journal

-- Work on an issue while nothing else is in flight leaves at most that issue's run in flight.
pub work_issue-OnlyInFlight :
    {W : Type 0} (deps : Deps) (services : Services W) (issue : IssueSummary)
    (options : WorkOptions) (s : Machine W)
    → OnlyInFlight issue.number s.journal
    → OnlyInFlight issue.number (work_issue deps services issue options s).1.journal
unfolding work_issue Leads Alone Keeps call
work_issue-OnlyInFlight deps services issue options s alone =
    let job = job_of deps issue options in
    (work_job-Leads deps services job (OnlyInFlight issue.number) (λ _. Alone issue.number)
      (λ _. record {
        called = λ c may e t i. i;
        moved = λ t w i. i;
        spent = λ t b i. i;
        readable = λ t i. i;
        written = λ t j k i. k;
        upserted = λ j run e k. upsert_run-OnlyInFlight issue.number j run e k;
      })
      (λ k t i. i) (λ k task t own i. i) 0 s alone).0
