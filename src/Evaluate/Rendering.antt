-- ===== src/Evaluate/Rendering.antt =====
-- tooling/loop/src/summary.ts: the readable half of the sticky comment, and the comment that
-- tooling/loop/bin/evaluate-pr.ts writes. The reasons stand in the view as the texts that the gate
-- and the classification give them.
pub mod Pieces
pub mod Closed
pub mod RoundTrip
use Prim.Native.Char.{Char}
use Prim.Native.String
use space_elysiajs_orpc.Prelude.{
  ℕ, zero, suc, String, Bool, Option, none, some, List, [], ◌∷◌, ◌++◌, map, is_empty, not,
  if◌then◌else◌, concat, join, show, length,
}
use space_elysiajs_orpc.Policy.{RiskLevel}
use space_elysiajs_orpc.Review.{Finding, ReviewResult}
use space_elysiajs_orpc.Review.Markdown.{sanitise_for_markdown}
use space_elysiajs_orpc.Recurrence.{RecurringFinding, RecurrenceOccurrence}
use space_elysiajs_orpc.Gate.{GateDecision}
use space_elysiajs_orpc.Regexp.{text_take}
use space_elysiajs_orpc.State.{LoopState}
use space_elysiajs_orpc.State.Json.{severity_name, status_name}
use space_elysiajs_orpc.State.Comment.{serialise_loop_state}

-- `DECISION_LABEL`
abbrev pub decision_label : GateDecision → String
decision_label GateDecision.auto_merge = "Auto merge enabled"
decision_label GateDecision.human_approval_required = "Human approval required"
decision_label GateDecision.changes_requested = "Changes requested"
decision_label GateDecision.blocked = "Blocked — automation stopped"
decision_label GateDecision.waiting = "Waiting"

abbrev pub risk_name : RiskLevel → String
risk_name RiskLevel.low = "low"
risk_name RiskLevel.medium = "medium"
risk_name RiskLevel.high = "high"

abbrev pub gate_name : Bool → String
gate_name passed = if passed then "success" else "failure"

pub record RiskText : Type 0 where
  pub risk : RiskLevel
  pub source : String
  pub detail : String

pub record CheckRow : Type 0 where
  pub name : String
  pub conclusion : String

pub record PullRequestView : Type 0 where
  pub issue : Option ℕ
  pub risk : RiskLevel
  pub risk_reasons : List RiskText
  pub review : ReviewResult
  pub decision : GateDecision
  pub reasons : List String
  pub risk_gate : Bool
  pub review_gate : Bool
  pub state : LoopState
  pub max_review_attempts : ℕ
  pub checks : List CheckRow
  pub recurrence : List RecurringFinding

pub row : String × String → String
row (key, value) = concat ("| " ∷ key ∷ " | " ∷ value ∷ " |" ∷ [])

pub table : List (String × String) → String
unfolding row
table rows = join "\n" ("| | |" ∷ "| --- | --- |" ∷ map row rows)

abbrev pub dash_or : Option String → String
dash_or none = "—"
dash_or (some text) = text

abbrev pub issue_cell : Option ℕ → String
issue_cell none = "—"
issue_cell (some n) = concat ("#" ∷ show n ∷ [])

pub finding_row : Finding → String
finding_row f = concat (
    "| "
    ∷ severity_name f.severity
    ∷ " | "
    ∷ dash_or f.file
    ∷ " | "
    ∷ sanitise_for_markdown f.description
    ∷ " | "
    ∷ sanitise_for_markdown f.suggested_action
    ∷ " |"
    ∷ [])

pub reason_line : String → String
reason_line reason = concat ("- " ∷ sanitise_for_markdown reason ∷ [])

pub risk_line : RiskText → String
risk_line r =
    concat
      ("- `" ∷ risk_name r.risk ∷ "` from " ∷ r.source ∷ ": " ∷ sanitise_for_markdown r.detail ∷ [])

pub check_line : CheckRow → String
check_line c = concat ("- " ∷ c.name ∷ ": " ∷ c.conclusion ∷ [])

pub occurrence_text : RecurrenceOccurrence → String
occurrence_text o =
    concat ("attempt " ∷ show o.attempt ∷ " (`" ∷ text_take 12 o.head_sha ∷ "`)" ∷ [])

pub recurrence_line : RecurringFinding → String
unfolding occurrence_text
recurrence_line r = concat (
    "- "
    ∷ sanitise_for_markdown r.finding.description
    ∷ " — survived "
    ∷ join ", " (map occurrence_text r.occurrences)
    ∷ ". Diff those heads to see what was tried before attempting another fix."
    ∷ [])

abbrev pub status_rows : PullRequestView → List (String × String)
status_rows view =
    ("Issue", issue_cell view.issue)
    ∷ ("Risk", concat ("`" ∷ risk_name view.risk ∷ "`" ∷ []))
    ∷ ("Review", concat ("`" ∷ status_name view.review.status ∷ "`" ∷ []))
    ∷ (
      "Review attempts",
      concat (show view.state.review_attempts ∷ " of " ∷ show view.max_review_attempts ∷ []),
    )
    ∷ ("Risk gate", gate_name view.risk_gate)
    ∷ ("Review gate", gate_name view.review_gate)
    ∷ ("Decision", decision_label view.decision)
    ∷ []

pub finding_sections : List Finding → List String
unfolding finding_row
finding_sections [] = []
finding_sections (f ∷ findings) =
    ""
    ∷ concat ("**Findings (" ∷ show (length (f ∷ findings)) ∷ ")**" ∷ [])
    ∷ ""
    ∷ "| Severity | File | Description | Suggested action |"
    ∷ "| --- | --- | --- | --- |"
    ∷ join "\n" (map finding_row (f ∷ findings))
    ∷ []

pub recurrence_sections : List RecurringFinding → List String
unfolding recurrence_line
recurrence_sections [] = []
recurrence_sections (r ∷ recurrence) =
    ""
    ∷ "**Recurring findings** — already raised in an earlier attempt on this pull request"
    ∷ ""
    ∷ map recurrence_line (r ∷ recurrence)

abbrev pub heading_sections : PullRequestView → List String
heading_sections view =
    concat ("### Autonomous loop — " ∷ decision_label view.decision ∷ [])
    ∷ ""
    ∷ table (status_rows view)
    ∷ ""
    ∷ "**Why**"
    ∷ ""
    ∷ map reason_line view.reasons

abbrev pub risk_sections : PullRequestView → List String
risk_sections view = "" ∷ "**Risk classification**" ∷ "" ∷ map risk_line view.risk_reasons

abbrev pub check_sections : PullRequestView → List String
check_sections view = "" ∷ "**Required checks**" ∷ "" ∷ map check_line view.checks

abbrev pub closing_sections : PullRequestView → List String
closing_sections view =
    ""
    ∷ "**Review summary**"
    ∷ ""
    ∷ concat ("> " ∷ sanitise_for_markdown view.review.summary ∷ [])
    ∷ []

pub sections : PullRequestView → List String
unfolding table reason_line risk_line check_line finding_sections recurrence_sections
sections view =
    heading_sections view
    ++ (risk_sections view
        ++ (check_sections view
            ++ (finding_sections view.review.findings
                ++ (recurrence_sections view.recurrence ++ closing_sections view))))

unfoldable pub render_pull_request_summary : PullRequestView → String
unfolding sections
render_pull_request_summary view = join "\n" (sections view)

-- What evaluate-pr.ts writes to `summary.md`.
unfoldable pub comment_of : PullRequestView → String
comment_of view =
    concat (render_pull_request_summary view ∷ "\n\n" ∷ serialise_loop_state view.state ∷ "\n" ∷ [])
