-- ===== src/State/Json.antt =====
-- `JSON.stringify(state, null, 2)` for the loop's state, in the order of the schema's fields.
use Prim.Native.Char.{Char, code}
use Prim.Native.String
use space_elysiajs_orpc.Prelude.{
  ℕ, zero, suc, ◌+◌, ◌/◌, ◌%◌, String, Option, none, some, List, [], ◌∷◌, map, eqb, ltb,
  if◌then◌else◌, concat, join, show,
}
use space_elysiajs_orpc.Policy.{Severity}
use space_elysiajs_orpc.Review.{ReviewStatus, approve, request_changes, blocked}
use space_elysiajs_orpc.Gate.{GateDecision}
use space_elysiajs_orpc.Recurrence.{FindingRecord}
use space_elysiajs_orpc.State.{LoopState, HistoryEntry}

-- Four hexadecimal digits, below 32.
abbrev pub hex_digit : ℕ → String
hex_digit n =
    if ltb n 10
    then show n
    else if eqb n 10
    then "a"
    else if eqb n 11
    then "b"
    else if eqb n 12
    then "c"
    else if eqb n 13
    then "d"
    else if eqb n 14
    then "e"
    else "f"

abbrev pub unicode_escape : ℕ → String
unicode_escape n = concat ("\\u00" ∷ hex_digit (n / 16) ∷ hex_digit (n % 16) ∷ [])

unfoldable pub escaped : Char → String
escaped c =
    let n = code c in
    if eqb n b'"'
    then "\\\""
    else if eqb n b'\\'
    then "\\\\"
    else if eqb n 8
    then "\\b"
    else if eqb n 12
    then "\\f"
    else if eqb n 10
    then "\\n"
    else if eqb n 13
    then "\\r"
    else if eqb n 9
    then "\\t"
    else if ltb n 32
    then unicode_escape n
    else String.◌∷◌ c String.[]

unfoldable pub escape : String → String
unfolding escaped
escape String.[] = ""
escape (String.◌∷◌ c s) = String.◌++◌ (escaped c) (escape s)

unfoldable pub quoted : String → String
unfolding escape
quoted s = concat ("\"" ∷ escape s ∷ "\"" ∷ [])

unfoldable pub spaces : ℕ → String
spaces zero = ""
spaces (suc n) = String.◌++◌ " " (spaces n)

-- Members or elements at a depth, inside their brackets.
unfoldable pub block : String → String → ℕ → List String → String
unfolding spaces
block opening closing depth [] = concat (opening ∷ closing ∷ [])
block opening closing depth (item ∷ items) =
    let separator = concat (",\n" ∷ spaces (depth + 2) ∷ []) in
    concat (
      opening
      ∷ "\n"
      ∷ spaces (depth + 2)
      ∷ join separator (item ∷ items)
      ∷ "\n"
      ∷ spaces depth
      ∷ closing
      ∷ [])

unfoldable pub member : String → String → String
unfolding quoted
member key value = concat (quoted key ∷ ": " ∷ value ∷ [])

unfoldable pub or_null {ℓ} : {A : Type ℓ} → (A → String) → Option A → String
or_null print none = "null"
or_null print (some a) = print a

abbrev pub severity_name : Severity → String
severity_name Severity.info = "info"
severity_name Severity.low = "low"
severity_name Severity.medium = "medium"
severity_name Severity.high = "high"
severity_name Severity.critical = "critical"

abbrev pub status_name : ReviewStatus → String
status_name approve = "approve"
status_name request_changes = "request_changes"
status_name blocked = "blocked"

abbrev pub decision_name : GateDecision → String
decision_name GateDecision.auto_merge = "auto_merge"
decision_name GateDecision.human_approval_required = "human_approval_required"
decision_name GateDecision.changes_requested = "changes_requested"
decision_name GateDecision.blocked = "blocked"
decision_name GateDecision.waiting = "waiting"

abbrev pub finding_members : FindingRecord → List String
finding_members f =
    member "severity" (quoted (severity_name f.severity))
    ∷ member "file" (or_null quoted f.file)
    ∷ member "description" (quoted f.description)
    ∷ member "category" (quoted f.category)
    ∷ []

unfoldable pub print_finding : FindingRecord → String
unfolding block member or_null quoted
print_finding f = block "{" "}" 8 (finding_members f)

abbrev pub entry_members : HistoryEntry → List String
entry_members e =
    member "at" (quoted e.at)
    ∷ member "headSha" (quoted e.head_sha)
    ∷ member "attempt" (show e.attempt)
    ∷ member "reviewStatus" (quoted (status_name e.review_status))
    ∷ member "decision" (quoted (decision_name e.decision))
    ∷ member "findings" (block "[" "]" 6 (map print_finding e.findings))
    ∷ []

unfoldable pub print_entry : HistoryEntry → String
unfolding block member quoted print_finding
print_entry e = block "{" "}" 4 (entry_members e)

abbrev pub state_members : LoopState → List String
state_members s =
    member "version" "1"
    ∷ member "issue" (or_null show s.issue)
    ∷ member "reviewAttempts" (show s.review_attempts)
    ∷ member "lastReviewStatus" (or_null (λ r. quoted (status_name r)) s.last_review_status)
    ∷ member "lastDecision" (or_null (λ d. quoted (decision_name d)) s.last_decision)
    ∷ member "history" (block "[" "]" 2 (map print_entry s.history))
    ∷ []

unfoldable pub stringify : LoopState → String
unfolding block member or_null quoted print_entry
stringify s = block "{" "}" 0 (state_members s)
