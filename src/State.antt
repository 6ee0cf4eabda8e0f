-- ===== src/State.antt =====
-- tooling/loop/src/state.ts: the loop's state on a pull request, and how a round advances it.
pub mod Bounds
pub mod Json
pub mod Comment
use space_elysiajs_orpc.Prelude.{
  ℕ, zero, ◌+◌, ◌-◌, String, Bool, true, false, Option, none, some, List, [], ◌∷◌, ◌++◌,
  if◌then◌else◌, length, take, drop,
}
use space_elysiajs_orpc.Review.{ReviewStatus}
use space_elysiajs_orpc.Recurrence.{FindingRecord, max_retained_findings}
use space_elysiajs_orpc.Gate.{GateDecision, changes_requested}

pub record HistoryEntry : Type 0 where
  pub at : String
  pub head_sha : String
  pub attempt : ℕ
  pub review_status : ReviewStatus
  pub decision : GateDecision
  pub findings : List FindingRecord

-- `version` is the literal 1, and has no field.
pub record LoopState : Type 0 where
  pub issue : Option ℕ
  pub review_attempts : ℕ
  pub last_review_status : Option ReviewStatus
  pub last_decision : Option GateDecision
  pub history : List HistoryEntry

unfoldable pub initial_state : Option ℕ → LoopState
initial_state issue = record {
  issue = issue;
  review_attempts = 0;
  last_review_status = none;
  last_decision = none;
  history = [];
}

pub record RecordRoundInput : Type 0 where
  pub state : LoopState
  pub head_sha : String
  pub review_status : ReviewStatus
  pub decision : GateDecision
  pub at : String
  -- Left out, it is the empty list.
  pub findings : List FindingRecord

-- `xs.slice(-n)`, for n above 0.
abbrev pub last {ℓ} : {A : Type ℓ} → ℕ → List A → List A
last n xs = drop (length xs - n) xs

abbrev pub is_changes_requested : GateDecision → Bool
is_changes_requested changes_requested = true
is_changes_requested _ = false

unfoldable pub record_round : RecordRoundInput → LoopState
record_round input =
    let state = input.state in
    record state {
      review_attempts =
          if is_changes_requested input.decision
          then state.review_attempts + 1
          else state.review_attempts;
      last_review_status = some input.review_status;
      last_decision = some input.decision;
      history = last 25 (
          state.history
          ++ record {
            at = input.at;
            head_sha = input.head_sha;
            attempt = state.review_attempts;
            review_status = input.review_status;
            decision = input.decision;
            findings = take max_retained_findings input.findings;
          }
            ∷ []);
    }
