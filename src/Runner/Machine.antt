-- ===== src/Runner/Machine.antt =====
-- What the orchestrator calls on: GitHub, git and the other commands, the agents, the clock. The
-- interfaces `GitHubAdapter` (github.ts), `CodingAgent` and `ReviewAgent` (agent.ts) are calls with
-- answers, over a world of their own; an operation may throw, and changes the machine. The journal's
-- file is part of the machine and can be written. Log lines and log files are left out.
pub mod Laws
use space_elysiajs_orpc.Prelude.{ℕ, String, Bool, Option, none, some, List, [], ◌∷◌}
use space_elysiajs_orpc.Policy.{RiskLevel, LoopPolicy}
use space_elysiajs_orpc.Review.{ReviewResult}
use space_elysiajs_orpc.Risk.{RiskAssessment}
use space_elysiajs_orpc.Eligibility.{IssueSummary}
use space_elysiajs_orpc.Runner.{RunnerConfig}
use space_elysiajs_orpc.Runner.Budget.{Budget, Readings, record_invocation, record_issue}
use space_elysiajs_orpc.Runner.Journal.{Journal}
use space_elysiajs_orpc.Runner.Verify.{Exit, RunResult, VerificationOutcome}
use space_elysiajs_orpc.Runner.Github.{GhIssue, GhPullRequest}

-- What the runner tells a fix round beside reviews and verification.
pub data Feedback : Type 0 where
  resolve_conflict : Feedback
  red_checks : List String → Feedback

pub record CodingTask : Type 0 where
  pub issue : ℕ
  pub title : String
  pub body : String
  pub worktree : String
  pub branch : String
  pub round : ℕ
  pub review : Option ReviewResult
  pub verification : Option VerificationOutcome
  pub feedback : Option Feedback

pub data CodingOutcome : Type 0 where
  implemented : String → CodingOutcome
  gave_up : String → String → CodingOutcome

pub record ReviewTask : Type 0 where
  pub worktree : String
  pub issue : ℕ
  pub title : String
  pub body : String
  pub base : String
  pub branch : String
  pub diff : String
  pub changed_files : List String

pub data ReviewOutcome : Type 0 where
  reviewed : ReviewResult → ReviewOutcome
  unusable : String → ReviewOutcome

-- The text of a stopped run, by the values that the source puts into it.
pub data Failure : Type 0 where
  worktree_unprepared : String → Failure
  install_failed : String → Failure
  rounds_spent : ℕ → Failure
  agent_stopped : String → String → Failure
  no_change : Failure
  commit_failed : String → Failure
  verification_unavailable : RiskLevel → VerificationOutcome → Failure
  verification_failing : ℕ → VerificationOutcome → Failure
  reviews_missing : ℕ → ℕ → List (ℕ × Option (ℕ × String)) → Failure
  review_blocked : String → Failure
  review_unsatisfied : ℕ → ReviewResult → Failure
  never_settled : Failure
  push_failed : String → Failure
  push_threw : String → Failure
  checks_failing : ℕ → List String → Failure

-- The values of `pullRequestBody`.
pub record PullRequestBody : Type 0 where
  pub issue : IssueSummary
  pub files : List String
  pub verification : VerificationOutcome
  pub review : ReviewResult
  pub risk : RiskAssessment

pub data Call : Type 0 where
  list_issues : Call
  view_issue : ℕ → Call
  add_labels : ℕ → List String → Call
  remove_label : ℕ → String → Call
  comment : ℕ → Failure → Call
  view_pull_request : ℕ → Call
  pull_request_for_branch : String → Call
  create_pull_request : String → String → String → PullRequestBody → Call
  enable_auto_merge : ℕ → Call
  update_branch : ℕ → Call
  git : String → List String → Call
  install : String → Call
  implement : CodingTask → Call
  review : ℕ → ReviewTask → Call
  read_policy : String → Call

-- `read_policy` answers the parsed file `.github/loop-policy.json` of a worktree, `none` for one
-- that is absent or not a policy.
abbrev pub Answer : Call → Type 0
Answer list_issues = List GhIssue
Answer (view_issue _) = GhIssue
Answer (add_labels _ _) = Unit
Answer (remove_label _ _) = Unit
Answer (comment _ _) = Unit
Answer (view_pull_request _) = GhPullRequest
Answer (pull_request_for_branch _) = Option GhPullRequest
Answer (create_pull_request _ _ _ _) = ℕ
Answer (enable_auto_merge _) = Unit
Answer (update_branch _) = Unit
Answer (git _ _) = RunResult
Answer (install _) = RunResult
Answer (implement _) = CodingOutcome
Answer (review _ _) = ReviewOutcome
Answer (read_policy _) = Option LoopPolicy

pub data Result (A : Type 0) : Type 0 where
  ok : A → Result A
  thrown : String → Result A

-- What answers. `exec`, in a directory, and `which` are `run` and `resolveOnPath` of exec.ts, for
-- verification; `now` is the clock, `readings` are its readings in one check of the budget; `stopping`
-- and `sleep` are the options of a session.
pub record Services (W : Type 0) : Type 0 where
  pub answer : (c : Call) → W → Result (Answer c) × W
  pub exec : String → W → String → List String → ℕ → Exit × W
  pub which : String → Option String
  pub now : W → ℕ
  pub iso : ℕ → String
  pub readings : W → Readings
  pub stopping : W → Bool
  pub sleep : ℕ → W → W

-- `calls` holds all calls made so far, the last one first.
pub record Machine (W : Type 0) : Type 0 where
  pub world : W
  pub journal : Journal
  pub budget : Budget
  pub calls : List Call

-- A step that may throw, over a state S.
abbrev pub M : Type 0 → Type 0 → Type 0
M S A = S → Result A × S

infixl 5 ◌>>=◌ ◌>>◌
abbrev pub ◌>>=◌ : {S A B : Type 0} → M S A → (A → M S B) → M S B
◌>>=◌ m f s = let (r, t) = m s in elim r [ ok a ↦ f a t | thrown message ↦ (thrown message, t) ]

abbrev pub ◌>>◌ : {S B : Type 0} → M S Unit → M S B → M S B
m >> k = m >>= λ _. k

abbrev pub pure : {S A : Type 0} → A → M S A
pure a s = (ok a, s)

abbrev pub throw : {S A : Type 0} → String → M S A
throw message s = (thrown message, s)

-- `try { m } catch (error) { handler }`
abbrev pub catch : {S A : Type 0} → M S A → (String → M S A) → M S A
catch m handler s =
    let (r, t) = m s in elim r [ ok a ↦ (ok a, t) | thrown message ↦ handler message t ]

module _ {W : Type 0} where
  unfoldable pub read_journal : M (Machine W) Journal
  read_journal s = (ok s.journal, s)

  unfoldable pub write_journal : Journal → M (Machine W) Unit
  write_journal journal s = (ok tt, record s { journal = journal })

module _ {W : Type 0} (services : Services W) where
  unfoldable pub call : (c : Call) → M (Machine W) (Answer c)
  call c s =
      let (r, w) = services.answer c s.world in (r, record s { world = w; calls = c ∷ s.calls })

  unfoldable pub clock : M (Machine W) ℕ
  clock s = (ok (services.now s.world), s)

  -- `budget.recordInvocation()` and `budget.recordIssue()`
  unfoldable pub spend_invocation : M (Machine W) Unit
  spend_invocation s =
      (ok tt, record s { budget = record_invocation (services.now s.world) s.budget })

  unfoldable pub spend_issue : M (Machine W) Unit
  spend_issue s = (ok tt, record s { budget = record_issue (services.now s.world) s.budget })
