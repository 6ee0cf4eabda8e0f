-- ===== src/Runner/Work/Keeping.antt =====
-- What an invariant has to keep of one issue's work, and the calls that the work makes.
use space_elysiajs_orpc.Prelude.{ℕ, String, ◌⊎◌, Bool, true, false, some, [], ◌∷◌, ◌≡◌, refl}
use space_elysiajs_orpc.Runner.Budget.{Budget}
use space_elysiajs_orpc.Runner.Branch.{is_agent_branch}
use space_elysiajs_orpc.Runner.Git.Keeping.{is_push, push_args}
use space_elysiajs_orpc.Review.{ReviewResult}
use space_elysiajs_orpc.Runner.Github.{GhPullRequest}
use space_elysiajs_orpc.Runner.Journal.{RunRecord, RunStatus, Journal, upsert_run}
use space_elysiajs_orpc.Runner.Machine.{
  Machine, Services, Call, Answer, ok, ReviewTask, CodingTask, PullRequestBody, reviewed, call,
  clock, spend_invocation, write_journal, Failure, list_issues, view_issue, add_labels,
  remove_label, comment, view_pull_request, pull_request_for_branch, create_pull_request,
  enable_auto_merge, update_branch, git, install, implement, review, read_policy,
}
use space_elysiajs_orpc.Runner.Machine.Laws.{
  Keeps, Leads, Runs-bind, Runs-after, Leads-pure, Given-of_eq,
}
use space_elysiajs_orpc.Runner.Work.{
  Deps, IssueOutcome, IssueStatus, Job, Local, save, fail, given_up,
}
use space_elysiajs_orpc.Runner.Work

module _ {W : Type 0} (services : Services W) where
  -- The call is answered so in some world.
  abbrev pub Answered : (c : Call) → Answer c → Type 0
  Answered c a = (w : W) × ((services.answer c w).0 ≡ ok a)

  -- A review that one of the reviewers gave of the task.
  abbrev pub IsAnswer : ReviewTask → ReviewResult → Type 0
  IsAnswer task result = (reviewer : ℕ) × Answered (review reviewer task) (reviewed result)

  pub call-Answered :
      (I : Machine W → Type 0) (c : Call)
      → Keeps I (call services c)
      → Leads I I (call services c) (Answered c)
  unfolding Keeps Leads call
  call-Answered I c h s i =
      (h s i, Given-of_eq (Answered c) (services.answer c s.world).0 (λ a e. (s.world, e)))

-- A task for the job's issue, in its worktree, on its branch.
abbrev pub IsOwnTask : Job → CodingTask → Type 0
IsOwnTask job task =
    (task.issue ≡ job.issue.number) × (task.worktree ≡ job.worktree) × (task.branch ≡ job.branch)

abbrev pub IsOwnReview : Job → ReviewTask → Type 0
IsOwnReview job task =
    (task.issue ≡ job.issue.number) × (task.worktree ≡ job.worktree) × (task.branch ≡ job.branch)

-- The number of a pull request that was listed for the job's branch or opened from it.
abbrev pub IsOwnPull : {W : Type 0} → Deps → Services W → Job → ℕ → Type 0
IsOwnPull deps services job n =
    ((pull : GhPullRequest) × Answered services (pull_request_for_branch job.branch) (some pull)
      × (pull.number ≡ n))
    ⊎ ((title : String) × (body : PullRequestBody) × Answered services
          (create_pull_request deps.default_branch job.branch title body) n)

-- The directories in which the work runs git.
abbrev pub IsOwnPlace : Deps → Job → String → Type 0
IsOwnPlace deps job cwd = (cwd ≡ job.worktree) ⊎ (cwd ≡ deps.repository)

-- What the work on an issue may call: labels and comments of that issue; pull requests of its branch
-- into the default one, and the merging of one of these; its coding and review tasks; the install
-- and the policy of its worktree; git in its worktree or the repository, where of all pushes only
-- that of its branch, which is an agent's, without force.
abbrev pub MayCall : {W : Type 0} → Deps → Services W → Job → Call → Type 0
MayCall deps services job list_issues = ⊥
MayCall deps services job (view_issue _) = ⊥
MayCall deps services job (view_pull_request _) = ⊥
MayCall deps services job (update_branch _) = ⊥
MayCall deps services job (add_labels n _) = n ≡ job.issue.number
MayCall deps services job (remove_label n _) = n ≡ job.issue.number
MayCall deps services job (comment n _) = n ≡ job.issue.number
MayCall deps services job (pull_request_for_branch branch) = branch ≡ job.branch
MayCall deps services job (create_pull_request base head _ _) =
    (base ≡ deps.default_branch) × (head ≡ job.branch)
MayCall deps services job (git cwd args) =
    IsOwnPlace deps job cwd
    × (is_push args ≡ true
        → (args ≡ push_args deps.remote job.branch) × (is_agent_branch job.branch ≡ true))
MayCall deps services job (enable_auto_merge n) = IsOwnPull deps services job n
MayCall deps services job (install worktree) = worktree ≡ job.worktree
MayCall deps services job (implement task) = IsOwnTask job task
MayCall deps services job (review _ task) = IsOwnReview job task
MayCall deps services job (read_policy worktree) = worktree ≡ job.worktree

abbrev pub is_implement : Call → Bool
is_implement c = elim c [ implement _ ↦ true | _ ↦ false ]

module _ {W : Type 0} (deps : Deps) (services : Services W) (job : Job) where
  -- An invariant I of the machine, with K what it says of the journal.
  pub record Kept (K : Journal → Type 0) (I : Machine W → Type 0) : Type 0 where
    pub called :
        (c : Call)
        → MayCall deps services job c
        → is_implement c ≡ false
        → Keeps I (call services c)
    pub moved : (s : Machine W) (w : W) → I s → I (record s { world = w })
    pub spent : (s : Machine W) (b : Budget) → I s → I (record s { budget = b })
    pub readable : (s : Machine W) → I s → K s.journal
    pub written : (s : Machine W) (j : Journal) → K j → I s → I (record s { journal = j })
    pub upserted :
        (j : Journal) (run : RunRecord) → run.issue ≡ job.issue.number → K j → K (upsert_run j run)

  abbrev pub IsGood : (Journal → Type 0) → Local → Type 0
  IsGood K local = K local.journal × (local.run.issue ≡ job.issue.number)

  -- The outcome of an issue that was given up.
  abbrev pub IsGivenUp : IssueOutcome → Type 0
  IsGivenUp outcome =
      (outcome.issue ≡ job.issue.number)
      × (outcome.status ≡ Work.blocked)
      × ((failure : Failure) × (outcome.failure ≡ some failure))

  module _ (K : Journal → Type 0) (I : Machine W → Type 0) (kept : Kept K I) where
    pub clock-Keeps : Keeps I (clock services)
    unfolding clock Keeps
    clock-Keeps s i = i

    pub spend_invocation-Keeps : Keeps I (spend_invocation services)
    unfolding spend_invocation Keeps
    spend_invocation-Keeps s i = kept.spent s _ i

    pub save-Runs : (local : Local) → IsGood K local → Leads I I (save local) (IsGood K)
    unfolding save write_journal Leads
    save-Runs local (k, e) s i =
        let k' = kept.upserted local.journal local.run e k in (kept.written s _ k' i, (k', e))

    pub fail-Runs :
        (local : Local) (failure : Failure)
        → IsGood K local
        → Leads I I (fail services job local failure) IsGivenUp
    unfolding fail
    fail-Runs local failure good =
        Runs-bind I (IsGood K) _ _ _
          (save-Runs (record local { run = record local.run { status = RunStatus.blocked } }) good)
          (λ _ _.
            Runs-after I _ _ _
              (kept.called (remove_label job.issue.number "agent:in-progress") refl refl)
              (λ _.
                Runs-after I _ _ _
                  (kept.called (add_labels job.issue.number ("agent:blocked" ∷ [])) refl refl)
                  (λ _.
                    Runs-after I _ _ _ (kept.called (comment job.issue.number failure) refl refl)
                      (λ _.
                        Leads-pure I (given_up job local failure) _
                          (refl, refl, (failure, refl))))))
