-- ===== src/Evaluate/Rendering/Pieces.antt =====
-- The lines of the rendered summary open no HTML comment.
use space_elysiajs_orpc.Prelude.{
  ℕ, String, Bool, true, false, Option, none, some, List, [], ◌∷◌, map, join, show, All, ◌≡◌, refl,
}
use space_elysiajs_orpc.Prelude.Text.Digits.{each, each-show}
use space_elysiajs_orpc.Prelude.Text.Opening.{
  Shut, quiet, Shut-fixed, Shut-cell, Shut-last, Shut-join, All-map_Shut,
}
use space_elysiajs_orpc.Policy.{RiskLevel, Severity}
use space_elysiajs_orpc.Review.{Finding, ReviewStatus, approve, request_changes, blocked}
use space_elysiajs_orpc.Review.Markdown.{sanitise_for_markdown, sanitise_for_markdown_safe}
use space_elysiajs_orpc.Recurrence.{RecurringFinding, RecurrenceOccurrence}
use space_elysiajs_orpc.Gate.{GateDecision}
use space_elysiajs_orpc.Regexp.{text_take}
use space_elysiajs_orpc.State.Json.{severity_name, status_name}
use space_elysiajs_orpc.Evaluate.Rendering.{
  decision_label, risk_name, gate_name, RiskText, CheckRow, row, dash_or, finding_row, reason_line,
  risk_line, check_line, occurrence_text, recurrence_line,
}

pub safe : (text : String) → Shut (sanitise_for_markdown text)
safe text = (sanitise_for_markdown_safe text).1

pub reason_line-Shut : (reason : String) → Shut (reason_line reason)
unfolding reason_line
reason_line-Shut reason =
    let text = sanitise_for_markdown reason in
    Shut-fixed "- " (text ∷ []) refl (Shut-last text (safe reason))

pub severity_quiet : (s : Severity) → each quiet (severity_name s) ≡ true
severity_quiet Severity.info = refl
severity_quiet Severity.low = refl
severity_quiet Severity.medium = refl
severity_quiet Severity.high = refl
severity_quiet Severity.critical = refl

pub risk_quiet : (r : RiskLevel) → each quiet (risk_name r) ≡ true
risk_quiet RiskLevel.low = refl
risk_quiet RiskLevel.medium = refl
risk_quiet RiskLevel.high = refl

pub status_quiet : (s : ReviewStatus) → each quiet (status_name s) ≡ true
status_quiet approve = refl
status_quiet request_changes = refl
status_quiet blocked = refl

pub decision_quiet : (d : GateDecision) → each quiet (decision_label d) ≡ true
decision_quiet GateDecision.auto_merge = refl
decision_quiet GateDecision.human_approval_required = refl
decision_quiet GateDecision.changes_requested = refl
decision_quiet GateDecision.blocked = refl
decision_quiet GateDecision.waiting = refl

pub gate_quiet : (b : Bool) → each quiet (gate_name b) ≡ true
gate_quiet true = refl
gate_quiet false = refl

pub show-quiet : (n : ℕ) → each quiet (show n) ≡ true
show-quiet n = each-show quiet n refl

-- The cell of a file, where its path opens no comment.
dash_or-Shut :
    (o : Option String) → ((path : String) → o ≡ some path → Shut path) → Shut (dash_or o)
dash_or-Shut none h = refl
dash_or-Shut (some path) h = h path refl

pub finding_row-Shut :
    (f : Finding) → ((path : String) → f.file ≡ some path → Shut path) → Shut (finding_row f)
unfolding finding_row
finding_row-Shut f h =
    let d = sanitise_for_markdown f.description in
    let a = sanitise_for_markdown f.suggested_action in
    let actions = a ∷ " |" ∷ [] in
    let texts = d ∷ " | " ∷ actions in
    let files = dash_or f.file ∷ " | " ∷ texts in
    Shut-fixed "| " (severity_name f.severity ∷ " | " ∷ files) refl (
      Shut-fixed (severity_name f.severity) (" | " ∷ files) (severity_quiet f.severity) (
        Shut-fixed " | " files refl (
          Shut-cell (dash_or f.file) " | " texts refl refl (dash_or-Shut f.file h) (
            Shut-cell d " | " actions refl refl (safe f.description)
              (Shut-cell a " |" [] refl refl (safe f.suggested_action) refl)))))

pub risk_line-Shut : (r : RiskText) → Shut r.source → Shut (risk_line r)
unfolding risk_line
risk_line-Shut r h =
    let d = sanitise_for_markdown r.detail in
    let sources = r.source ∷ ": " ∷ d ∷ [] in
    Shut-fixed "- `" (risk_name r.risk ∷ "` from " ∷ sources) refl (
      Shut-fixed (risk_name r.risk) ("` from " ∷ sources) (risk_quiet r.risk) (
        Shut-fixed "` from " sources refl
          (Shut-cell r.source ": " (d ∷ []) refl refl h (Shut-last d (safe r.detail)))))

pub check_line-Shut : (c : CheckRow) → Shut c.name → Shut c.conclusion → Shut (check_line c)
unfolding check_line
check_line-Shut c h k =
    Shut-fixed "- " (c.name ∷ ": " ∷ c.conclusion ∷ []) refl
      (Shut-cell c.name ": " (c.conclusion ∷ []) refl refl h (Shut-last c.conclusion k))

occurrence-Shut :
    (o : RecurrenceOccurrence) → Shut (text_take 12 o.head_sha) → Shut (occurrence_text o)
unfolding occurrence_text
occurrence-Shut o h =
    let head = text_take 12 o.head_sha ∷ "`)" ∷ [] in
    Shut-fixed "attempt " (show o.attempt ∷ " (`" ∷ head) refl (
      Shut-fixed (show o.attempt) (" (`" ∷ head) (show-quiet o.attempt)
        (Shut-fixed " (`" head refl (Shut-cell (text_take 12 o.head_sha) "`)" [] refl refl h refl)))

pub All-weaken {ℓ κ μ} :
    {A : Type ℓ} {P : A → Type κ} {Q : A → Type μ} (l : List A)
    → ((a : A) → P a → Q a)
    → All P l
    → All Q l
All-weaken [] f h = tt
All-weaken (a ∷ l) f h = (f a h.0, All-weaken l f h.1)

pub recurrence_line-Shut :
    (r : RecurringFinding)
    → All (λ (o : RecurrenceOccurrence). Shut (text_take 12 o.head_sha)) r.occurrences
    → Shut (recurrence_line r)
unfolding recurrence_line
recurrence_line-Shut r h =
    let d = sanitise_for_markdown r.finding.description in
    let heads = join ", " (map occurrence_text r.occurrences) in
    let advice : String =
      ". Diff those heads to see what was tried before attempting another fix." in
    Shut-fixed "- " (d ∷ " — survived " ∷ heads ∷ advice ∷ []) refl (
      Shut-cell d " — survived " (heads ∷ advice ∷ []) refl refl (safe r.finding.description) (
        Shut-cell heads advice [] refl refl
          (Shut-join ", " (map occurrence_text r.occurrences) refl refl (
            All-map_Shut occurrence_text r.occurrences
              (All-weaken r.occurrences occurrence-Shut h)))
          refl))

pub row-Shut :
    (key value : String) → each quiet key ≡ true → each quiet value ≡ true → Shut (row (key, value))
unfolding row
row-Shut key value h k = Shut-fixed "| " (key ∷ " | " ∷ value ∷ " |" ∷ []) refl (
    Shut-fixed key (" | " ∷ value ∷ " |" ∷ []) h
      (Shut-fixed " | " (value ∷ " |" ∷ []) refl (Shut-fixed value (" |" ∷ []) k refl)))
