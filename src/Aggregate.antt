-- ===== src/Aggregate.antt =====
-- tooling/loop/src/aggregate.ts: several independent reviews reduced to one verdict. The lower-case
-- form of a text is a parameter; the messages of `reasons` are constructors that hold the values
-- which the source puts into the text.
pub mod Spot
pub mod Dedupe
pub mod Verdict
use space_elysiajs_orpc.Prelude.{
  ℕ, zero, suc, ◌+◌, ◌%◌, String, Bool, true, false, Option, none, some, List, [], ◌∷◌, ◌++◌, map,
  ltb, eqb, ◌&&◌, ◌||◌, if◌then◌else◌, filter, is_empty, not, ◌==◌, concat, join, show, length, all,
  get_or,
}
use space_elysiajs_orpc.Prelude.Assoc.{get, set, values}
use space_elysiajs_orpc.Policy.{Severity, severity_order}
use space_elysiajs_orpc.Review.{
  Finding, ReviewStatus, approve, request_changes, blocked, ReviewResult, is_blocked,
  is_request_changes, blocking_findings,
}

pub record AggregateInput : Type 0 where
  pub reviews : List ReviewResult
  pub required : ℕ
  pub blocking_severity : Severity

pub data AggregateReason : Type 0 where
  too_few : ℕ → ℕ → AggregateReason
  reported_blocked : ℕ → AggregateReason
  requested_changes : ℕ → ℕ → AggregateReason
  findings_at : ℕ → Severity → AggregateReason
  reviewer_approved : AggregateReason
  all_approved : ℕ → AggregateReason

pub record AggregateOutcome : Type 0 where
  pub status : ReviewStatus
  pub findings : List Finding
  pub summary : String
  pub received : ℕ
  pub required : ℕ
  pub unanimous : Bool
  pub reasons : List AggregateReason

-- `String.fromCharCode(65 + (index % 26))`
abbrev alphabet : List String
alphabet =
    "A" ∷ "B" ∷ "C" ∷ "D" ∷ "E" ∷ "F" ∷ "G" ∷ "H" ∷ "I" ∷ "J" ∷ "K" ∷ "L" ∷ "M" ∷ "N" ∷ "O" ∷ "P"
    ∷ "Q" ∷ "R" ∷ "S" ∷ "T" ∷ "U" ∷ "V" ∷ "W" ∷ "X" ∷ "Y" ∷ "Z" ∷ []

letter : ℕ → String
letter index = get_or alphabet (index % 26) ""

-- The lines that `reviews.map` makes, from the given index on.
summary_lines : ℕ → List ReviewResult → List String
unfolding letter
summary_lines index [] = []
summary_lines index (review ∷ rest) =
    concat ("Reviewer " ∷ letter index ∷ ": " ∷ review.summary ∷ [])
    ∷ summary_lines (suc index) rest

all_findings : List ReviewResult → List Finding
all_findings [] = []
all_findings (review ∷ rest) = review.findings ++ all_findings rest

abbrev same_status : ReviewStatus → ReviewStatus → Bool
same_status approve approve = true
same_status request_changes request_changes = true
same_status blocked blocked = true
same_status _ _ = false

agree : List ReviewStatus → Bool
agree [] = false
agree (first ∷ rest) = all (λ s. same_status s first) (first ∷ rest)

abbrev pub or_empty : Option String → String
or_empty none = ""
or_empty (some s) = s

abbrev pub line_text : Option ℕ → String
line_text none = ""
line_text (some n) = show n

-- `text.toLowerCase()` is the parameter.
module _ (lower : String → String) where
  -- Two findings with one key are reported once.
  pub key : Finding → String
  key f = concat (or_empty f.file ∷ ":" ∷ line_text f.line ∷ ":" ∷ lower f.description ∷ [])

  abbrev replaces : Finding → Option Finding → Bool
  replaces finding none = true
  replaces finding (some existing) =
      ltb (severity_order existing.severity) (severity_order finding.severity)

  -- The body and the loop of `dedupe`, over the map `byKey`.
  pub dedupe_step : List (String × Finding) → Finding → List (String × Finding)
  dedupe_step by_key finding =
      if replaces finding (get by_key (key finding))
      then set by_key (key finding) finding
      else by_key

  pub dedupe_from : List (String × Finding) → List Finding → List (String × Finding)
  dedupe_from by_key [] = by_key
  dedupe_from by_key (finding ∷ rest) = dedupe_from (dedupe_step by_key finding) rest

  unfoldable pub dedupe : List Finding → List Finding
  unfolding dedupe_from dedupe_step key
  dedupe findings = values (dedupe_from [] findings)

  unfoldable pub aggregate_reviews : AggregateInput → AggregateOutcome
  unfolding agree all_findings summary_lines
  aggregate_reviews input =
      let findings = dedupe (all_findings input.reviews) in
      let summary = join "\n\n" (summary_lines 0 input.reviews) in
      let received = length input.reviews in
      let statuses = map (λ (r : ReviewResult). r.status) input.reviews in
      let unanimous = agree statuses in
      let blocked_by = length (filter is_blocked statuses) in
      let blocking = blocking_findings findings input.blocking_severity in
      let changes_requested = length (filter is_request_changes statuses) in
      let objections =
        (if ltb 0 changes_requested then requested_changes changes_requested received ∷ [] else [])
        ++ (if not (is_empty blocking)
            then findings_at (length blocking) input.blocking_severity ∷ []
            else []) in
      let base : AggregateOutcome = record {
        status = approve;
        findings = findings;
        summary = summary;
        received = received;
        required = input.required;
        unanimous = unanimous;
        reasons = (if eqb received 1 then reviewer_approved else all_approved received) ∷ [];
      } in
      if ltb received input.required
      then record base {
        status = blocked;
        summary =
            if summary == ""
            then "No reviewer produced a usable result."
            else concat (summary ∷ "\n\nNot enough independent reviews to decide." ∷ []);
        reasons = too_few received input.required ∷ [];
      }
      else if ltb 0 blocked_by
      then record base { status = blocked; reasons = reported_blocked blocked_by ∷ [] }
      else if ltb 0 changes_requested || not (is_empty blocking)
      then record base { status = request_changes; reasons = objections }
      else base
