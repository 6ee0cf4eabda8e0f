-- ===== src/Review.antt =====
-- tooling/loop/src/review.ts: review results, how an agent's output is validated, and how the
-- deterministic findings join it. The schema library is a parameter of the validation.
pub mod Merging
pub mod Markdown
pub mod Validation
use Prim.Native.Char.{Char, code}
use space_elysiajs_orpc.Prelude.{
  ℕ, String, Bool, true, false, Option, none, some, List, [], ◌∷◌, ◌++◌, map, leb, eqb, ◌&&◌, ◌||◌,
  if◌then◌else◌, filter, is_empty, not, ◌==◌, concat,
}
use space_elysiajs_orpc.Policy.{Severity, is_at_least_severity}

pub record Finding : Type 0 where
  pub severity : Severity
  pub file : Option String
  pub line : Option ℕ
  pub description : String
  pub suggested_action : String
  pub source : String
  pub category : String

pub data ReviewStatus : Type 0 where
  approve request_changes blocked : ReviewStatus

pub record ReviewResult : Type 0 where
  pub status : ReviewStatus
  pub findings : List Finding
  pub summary : String

pub record ParseOutcome : Type 0 where
  pub ok : Bool
  pub errors : List String
  pub result : ReviewResult

abbrev pub is_approve : ReviewStatus → Bool
is_approve approve = true
is_approve _ = false

abbrev pub is_request_changes : ReviewStatus → Bool
is_request_changes request_changes = true
is_request_changes _ = false

abbrev pub is_blocked : ReviewStatus → Bool
is_blocked blocked = true
is_blocked _ = false

-- `CONTROL_CHARACTERS`: all control codes but tab, line feed and carriage return.
pub is_control : ℕ → Bool
is_control c = leb c 8 || eqb c 11 || eqb c 12 || (leb 14 c && leb c 31) || eqb c 127

unfoldable pub sanitise_text : String → String
unfolding is_control
sanitise_text String.[] = String.[]
sanitise_text (String.◌∷◌ c s) =
    let rest = sanitise_text s in if is_control (code c) then rest else String.◌∷◌ c rest

unfoldable pub blocked_result : String → List String → ReviewResult
blocked_result summary errors = record {
  status = blocked;
  summary = summary;
  findings =
      map
        (λ (error : String). record {
          severity = Severity.high;
          file = none;
          line = none;
          description = concat ("Review agent output was not usable: " ∷ error ∷ []);
          suggested_action =
              "Re-run the review agent. If it keeps emitting an invalid result the loop is blocked and needs a human.";
          source = "review-validation";
          category = "automation";
        })
        errors;
}

-- An issue that the schema library reports, with the path already joined by dots.
pub record Issue : Type 0 where
  pub path : String
  pub message : String

pub data Parsed : Type 0 where
  success : ReviewResult → Parsed
  failure : List Issue → Parsed

issue_text : Issue → String
issue_text i = concat ((if i.path == "" then "(root)" else i.path) ∷ ": " ∷ i.message ∷ [])

sanitise_finding : Finding → Finding
unfolding sanitise_text
sanitise_finding f = record f {
  description = sanitise_text f.description;
  suggested_action = sanitise_text f.suggested_action;
}

-- The two returns of `parseReviewResult`.
outcome_of : Parsed → ParseOutcome
unfolding blocked_result sanitise_text sanitise_finding issue_text
outcome_of (failure issues) =
    let errors = map issue_text issues in
    record {
      ok = false;
      errors = errors;
      result = blocked_result "Review result failed validation." errors;
    }
outcome_of (success parsed) = record {
  ok = true;
  errors = [];
  result = record {
    status = parsed.status;
    summary = sanitise_text parsed.summary;
    findings = map sanitise_finding parsed.findings;
  };
}

-- `ReviewResultSchema.safeParse` is the parameter.
unfoldable pub parse_review_result : {Raw : Type 0} → (Raw → Parsed) → Raw → ParseOutcome
unfolding outcome_of
parse_review_result safe_parse raw = outcome_of (safe_parse raw)

unfoldable pub blocking_findings : List Finding → Severity → List Finding
blocking_findings findings blocking_severity =
    filter (λ (f : Finding). is_at_least_severity f.severity blocking_severity) findings

unfoldable pub merge_review : ReviewResult → List Finding → Severity → ReviewResult
unfolding blocking_findings
merge_review agent deterministic blocking_severity =
    let findings = deterministic ++ agent.findings in
    let blocking = blocking_findings findings blocking_severity in
    record {
      status =
          if is_blocked agent.status
          then blocked
          else if not (is_empty blocking) || is_request_changes agent.status
          then request_changes
          else approve;
      findings = findings;
      summary = agent.summary;
    }
