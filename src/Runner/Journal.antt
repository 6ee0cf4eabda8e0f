-- ===== src/Runner/Journal.antt =====
-- tooling/local-runner/src/journal.ts: what the runner keeps of its runs. Reading and writing the
-- file is not modelled; a file that is no journal reads as the empty one.
pub mod Lookup
use space_elysiajs_orpc.Prelude.{
  ℕ, ◌-◌, String, Bool, Option, List, [], ◌∷◌, ◌++◌, eqb, not, filter, find, take, drop, length,
}
use space_elysiajs_orpc.Policy.{RiskLevel}

pub data AttemptPhase : Type 0 where
  implement verify review fix publish : AttemptPhase

pub data AttemptOutcome : Type 0 where
  ok failed skipped : AttemptOutcome

pub record Attempt : Type 0 where
  pub at : String
  pub phase : AttemptPhase
  pub outcome : AttemptOutcome
  pub detail : String

pub data RunStatus : Type 0 where
  in_progress awaiting_review blocked done : RunStatus

pub record RunRecord : Type 0 where
  pub issue : ℕ
  pub branch : String
  pub worktree : String
  pub started_at : String
  pub updated_at : String
  pub status : RunStatus
  pub fix_rounds : ℕ
  pub ci_rounds : ℕ
  pub conflict_rounds : ℕ
  pub pull_request : Option ℕ
  pub risk : Option RiskLevel
  pub attempts : List Attempt

pub record Journal : Type 0 where
  pub runs : List RunRecord

abbrev pub empty_journal : Journal
empty_journal = record { runs = [] }

unfoldable pub find_run : Journal → ℕ → Option RunRecord
find_run journal issue = find (λ (run : RunRecord). eqb run.issue issue) journal.runs

unfoldable pub upsert_run : Journal → RunRecord → Journal
upsert_run journal run = record {
  runs =
      take 200
        (run ∷ filter (λ (existing : RunRecord). not (eqb existing.issue run.issue)) journal.runs);
}

unfoldable pub append_attempt : RunRecord → Attempt → RunRecord
append_attempt run attempt =
    let attempts = run.attempts ++ attempt ∷ [] in
    record run { updated_at = attempt.at; attempts = drop (length attempts - 100) attempts }

-- `inFlight` of orchestrator.ts.
abbrev pub is_in_flight : RunStatus → Bool
is_in_flight s = elim s [ in_progress ↦ Bool.true | awaiting_review ↦ Bool.true | _ ↦ Bool.false ]

unfoldable pub in_flight : Journal → List RunRecord
in_flight journal = filter (λ (run : RunRecord). is_in_flight run.status) journal.runs
