-- ===== src/Runner/Work/Issue/Keeping.antt =====
-- What the work on an issue keeps, and how it ends: given up, or with a pull request of a change that
-- is verified and approved.
use space_elysiajs_orpc.Prelude.{
  ℕ, suc, ◌-◌, ◌⊎◌, inl, inr, Option, none, some, [], ◌∷◌, ◌≡◌, refl, Bool-cases,
}
use space_elysiajs_orpc.Runner.Git.Keeping.{
  push_args, fetch_base-Keeps, ensure_worktree-Keeps, rebase_onto_base-Keeps, push_branch-Keeps,
}
use space_elysiajs_orpc.Runner.Github.{GhPullRequest, says_open}
use space_elysiajs_orpc.Runner.Journal.{RunRecord, Journal, find_run, append_attempt}
use space_elysiajs_orpc.Runner.Journal.Lookup.{find_run-issue}
use space_elysiajs_orpc.Runner.Machine.{
  M, pure, Machine, Services, call, Call, Failure, git, add_labels, remove_label, install,
  pull_request_for_branch, create_pull_request, enable_auto_merge, read_journal, implement,
  CodingTask,
}
use space_elysiajs_orpc.Runner.Machine.Laws.{
  Keeps, Leads, Keeps-bind, Keeps-catch, Keeps-pure, Leads-bind, Runs-bind, Runs-after, Leads-pure,
  Leads-imp, Leads-of-Keeps,
}
use space_elysiajs_orpc.Runner.Work.{Deps, IssueOutcome, IssueStatus, opened, updated, Job, Local}
use space_elysiajs_orpc.Runner.Work.Keeping.{
  Answered, call-Answered, IsOwnPull, IsOwnPlace, IsOwnTask, Kept, IsGood, IsGivenUp, clock-Keeps,
  save-Runs, fail-Runs,
}
use space_elysiajs_orpc.Runner.Work.Rounds.{LoopEnd, stopped, done, Settled, max_rounds}
use space_elysiajs_orpc.Runner.Work.Rounds.Keeping.{
  Approved, LoopEndsWell, later, command-Keeps, weaker_by, run_rounds-Leads,
}
use space_elysiajs_orpc.Runner.Work.Issue.{
  claimed_run, claim, prepare, push, open_new, reuse_or_open, published_run, published,
  publish_change, unless_failed, after_rounds, work, install_and_work, work_job, install_failure,
  body_of,
}

module _ {W : Type 0} (deps : Deps) (services : Services W) (job : Job) where
  -- The outcome of an issue whose change is published.
  abbrev pub IsPublished : IssueOutcome → Type 0
  IsPublished outcome =
      (outcome.issue ≡ job.issue.number)
      × ((outcome.status ≡ opened) ⊎ (outcome.status ≡ updated))
      × ((number : ℕ) × (outcome.pull_request ≡ some number) × IsOwnPull deps services job number)
      × ((s : Settled) × Approved deps services job s × (outcome.risk ≡ some s.change.risk))

  abbrev pub WorkEndsWell : IssueOutcome → Type 0
  WorkEndsWell outcome = IsGivenUp deps services job outcome ⊎ IsPublished outcome

  module _ (K : Journal → Type 0) (I : Machine W → Type 0) (kept : Kept deps services job K I) where
    claimed_run-issue :
        (now : ℕ) (found : Option RunRecord)
        → ((run : RunRecord) → found ≡ some run → run.issue ≡ job.issue.number)
        → (claimed_run deps services job now found).issue ≡ job.issue.number
    unfolding claimed_run
    claimed_run-issue now none h = refl
    claimed_run-issue now (some run) h = h run refl

    read_journal-Runs : Leads I I (read_journal {W = W}) K
    unfolding read_journal Leads
    read_journal-Runs s i = (i, kept.readable s i)

    claim-Runs : Leads I I (claim deps services job) (IsGood deps services job K)
    unfolding claim
    claim-Runs =
        Runs-after I _ _ _
          (kept.called (add_labels job.issue.number ("agent:in-progress" ∷ [])) refl refl)
          (λ _.
            Runs-after I _ _ _ (kept.called (remove_label job.issue.number "agent:ready") refl refl)
              (λ _. Runs-bind I _ _ _ _ read_journal-Runs (λ journal k.
                Runs-after I _ _ _ (clock-Keeps deps services job K I kept) (λ now.
                  save-Runs deps services job K I kept
                    (record {
                      journal = journal;
                      run = claimed_run deps services job now (find_run journal job.issue.number);
                    })
                    (k, claimed_run-issue now _ (find_run-issue journal job.issue.number))))))

    prepare-Keeps : Keeps I (prepare deps services job)
    unfolding prepare
    prepare-Keeps =
        let command = command-Keeps deps services job K I kept in
        let called : (c : Call) → Keeps I (call services c) → Keeps I (call services c) =
          λ c h. h in
        let P : Call → Type 0 = λ c. Keeps I (call services c) in
        Keeps-catch I _ _
          (Keeps-bind I _ _
            (fetch_base-Keeps services I P (IsOwnPlace deps job) called command deps.repository
              deps.remote deps.default_branch (inr refl))
            (λ _.
              Keeps-bind I _ _
                (ensure_worktree-Keeps services I P (IsOwnPlace deps job) called command
                  (record {
                    repository = deps.repository;
                    path = job.worktree;
                    branch = job.branch;
                    base = job.base;
                  })
                  (inr refl))
                (λ _.
                  Keeps-bind I _ _
                    (rebase_onto_base-Keeps services I P (IsOwnPlace deps job) called command
                      job.worktree job.base (inl refl))
                    (λ _. Keeps-pure I none))))
          (λ message. Keeps-pure I _)

    push-Keeps : Keeps I (push deps services job)
    unfolding push
    push-Keeps =
        let command = command-Keeps deps services job K I kept in
        Keeps-catch I _ _
          (Keeps-bind I _ _
            (push_branch-Keeps services I (λ c. Keeps I (call services c)) (IsOwnPlace deps job)
              (λ c h. h) command job.worktree deps.remote job.branch
              (λ agent.
                kept.called (git job.worktree (push_args deps.remote job.branch))
                  (inl refl, λ _. (refl, agent)) refl))
            (λ pushed. Keeps-pure I _))
          (λ message. Keeps-pure I _)

    abbrev IsNumbered : (ℕ × IssueStatus) → Type 0
    IsNumbered r = IsOwnPull deps services job r.0 × ((r.1 ≡ opened) ⊎ (r.1 ≡ updated))

    open_new-Runs : (s : Settled) → Leads I I (open_new deps services job s) IsNumbered
    unfolding open_new
    open_new-Runs s =
        let opening : Call =
          create_pull_request deps.default_branch job.branch job.issue.title
            (body_of deps services job s) in
        Runs-bind I (Answered services opening) IsNumbered _ (λ number. pure (number, opened))
          (call-Answered services I opening (kept.called opening (refl, refl) refl))
          (λ number a.
            Leads-pure I (number, opened) IsNumbered
              (inr (job.issue.title, body_of deps services job s, a), inl refl))

    reuse_or_open-Runs :
        (s : Settled) (existing : Option GhPullRequest)
        → Answered services (pull_request_for_branch job.branch) existing
        → Leads I I (reuse_or_open deps services job s existing) IsNumbered
    unfolding reuse_or_open
    reuse_or_open-Runs s none a = open_new-Runs s
    reuse_or_open-Runs s (some existing) a =
        elim (Bool-cases (says_open deps.upper deps.lower existing)) [
          | inl e ↦ rw e (
              Leads-pure I (existing.number, updated) IsNumbered
                (inl (existing, a, refl), inr refl))
          | inr e ↦ rw e (open_new-Runs s)
        ]

    publish_change-Runs :
        (s : Settled)
        → IsGood deps services job K s.local
        → Approved deps services job s
        → Leads I I (publish_change deps services job s) WorkEndsWell
    unfolding publish_change published_run append_attempt
    publish_change-Runs s good approved =
        let listing : Call = pull_request_for_branch job.branch in
        Runs-bind I (Answered services listing) WorkEndsWell _ _
          (call-Answered services I listing (kept.called listing refl refl))
          (λ existing a. Runs-bind I _ _ _ _ (reuse_or_open-Runs s existing a) (λ r numbered.
            Runs-after I _ _ _ (clock-Keeps deps services job K I kept) (λ now.
              Runs-bind I _ _ _ _
                (save-Runs deps services job K I kept
                  (record s.local { run = published_run deps services job s now r.0 }) good)
                (λ _ _.
                  Runs-after I _ _ _
                    (kept.called (remove_label job.issue.number "agent:in-progress") refl refl)
                    (λ _.
                      Runs-after I _ _ _
                        (kept.called (add_labels job.issue.number ("agent:review" ∷ [])) refl refl)
                        (λ _.
                          Runs-after I _ _ _
                            (Keeps-catch I _ _ (kept.called (enable_auto_merge r.0) numbered.0 refl)
                              (λ _. Keeps-pure I tt))
                            (λ _. Leads-pure I (published deps services job s r.0 r.1) _ (
                              inr (
                                refl,
                                numbered.1,
                                (r.0, refl, numbered.0),
                                (s, approved, refl),
                              )))))))))

    unless_failed-Leads :
        (N : Machine W → Type 0) (local : Local) (rest : M (Machine W) IssueOutcome)
        (failure : Option Failure)
        → ((s : Machine W) → I s → N s)
        → IsGood deps services job K local
        → Leads I N rest WorkEndsWell
        → Leads I N (unless_failed deps services job local rest failure) WorkEndsWell
    unfolding unless_failed
    unless_failed-Leads N local rest none w good h = h
    unless_failed-Leads N local rest (some failure) w good h =
        Leads-imp I I N _ _ _ w (λ outcome g. inl g)
          (fail-Runs deps services job K I kept local failure good)

    after_rounds-Runs :
        (end : LoopEnd)
        → LoopEndsWell deps services job K end
        → Leads I I (after_rounds deps services job end) WorkEndsWell
    unfolding after_rounds
    after_rounds-Runs (stopped outcome) h = Leads-pure I outcome _ (inl h)
    after_rounds-Runs (done s) h = Runs-after I _ _ _ push-Keeps (λ failure.
        unless_failed-Leads I s.local _ failure (λ t i. i) h.0 (publish_change-Runs s h.0 h.1))

  -- How many rounds the work may take.
  abbrev pub rounds_left : ℕ
  rounds_left = max_rounds deps services job - job.start_round

  module _ (K : Journal → Type 0) (I : ℕ → Machine W → Type 0)
      (kept : (k : ℕ) → Kept deps services job K (I k))
      (weaker : (k : ℕ) (s : Machine W) → I k s → I (suc k) s)
      (asked : (k : ℕ) (task : CodingTask) (s : Machine W)
        → IsOwnTask job task
        → I k s
        → I (suc k) (call services (implement task) s).1) where
    work-Leads :
        (k : ℕ) (local : Local)
        → IsGood deps services job K local
        → Leads (I k) (I (later rounds_left k)) (work deps services job local) WorkEndsWell
    unfolding work
    work-Leads k local good =
        Leads-bind (I k) (I (later rounds_left k)) (I (later rounds_left k)) _ _ _ _
          (run_rounds-Leads deps services job K I kept weaker asked k local good) (λ s i. i)
          (after_rounds-Runs K (I (later rounds_left k)) (kept (later rounds_left k)))

    install_and_work-Leads :
        (k : ℕ) (local : Local)
        → IsGood deps services job K local
        → Leads
            (I k)
            (I (later rounds_left k))
            (install_and_work deps services job local)
            WorkEndsWell
    unfolding install_and_work
    install_and_work-Leads k local good =
        let up = weaker_by deps services job K I kept weaker asked rounds_left k in
        Leads-bind (I k) (I k) (I (later rounds_left k)) (λ _. Unit) _ _ _
          (Leads-of-Keeps (I k) _ ((kept k).called (install job.worktree) refl refl)) up
          (λ installed _.
            unless_failed-Leads K (I k) (kept k) (I (later rounds_left k)) local
              (work deps services job local) (install_failure deps services job installed) up good
              (work-Leads k local good))

    pub work_job-Leads :
        (k : ℕ) → Leads (I k) (I (later rounds_left k)) (work_job deps services job) WorkEndsWell
    unfolding work_job
    work_job-Leads k =
        let up = weaker_by deps services job K I kept weaker asked rounds_left k in
        Leads-bind (I k) (I k) (I (later rounds_left k)) _ _ _ _ (claim-Runs K (I k) (kept k)) up
          (λ local good.
            Leads-bind (I k) (I k) (I (later rounds_left k)) (λ _. Unit) _ _ _
              (Leads-of-Keeps (I k) _ (prepare-Keeps K (I k) (kept k))) up
              (λ failure _.
                unless_failed-Leads K (I k) (kept k) (I (later rounds_left k)) local _ failure up
                  good (install_and_work-Leads k local good)))
