-- ===== src/ControlPlane.antt =====
-- tooling/loop/src/control-plane.ts: whether a change reaches the loop's own rules, and whether it
-- weakens them. The policy's signals are regular expressions that are compiled at run time, so the
-- test of a signal against a line is a parameter.
pub mod Assessment
pub mod Protections
use space_elysiajs_orpc.Prelude.{
  ℕ, ◌*◌, String, Bool, true, false, Option, none, some, List, [], ◌∷◌, ◌++◌, map, leb, ltb, eqb,
  ◌&&◌, ◌||◌, not, if◌then◌else◌, filter, any, includes, is_empty, ◌==◌, concat, join, show,
}
use space_elysiajs_orpc.Policy.{
  RiskLevel, risk_order, Severity, severity_order, is_at_least_severity, PathRule, TierStep, Tier,
  Retry, LoopPolicy, tier_of,
}
use space_elysiajs_orpc.Review.{Finding}
use space_elysiajs_orpc.Glob.{matches_any_glob}
use space_elysiajs_orpc.Diff.{DiffFile, PullRequestDiff}
use space_elysiajs_orpc.Regexp.{Re, start, end, word_boundary, seq, alt, star, one_of, test}
use space_elysiajs_orpc.Regexp.Classes.{
  space, in_set, not_in_set, literal, plus, maybe, all_of, any_of,
}

pub data ControlReason : Type 0 where
  by_definition : String → ControlReason
  by_signal : String → String → ControlReason
  own_machinery : String → ControlReason

pub record ControlPlaneAssessment : Type 0 where
  pub affected : Bool
  pub policy_bearing : Bool
  pub files : List String
  pub reasons : List ControlReason

-- `new RegExp(signal, 'i').test(line)` is the parameter.
module _ (signals : String → String → Bool) where
  first_signal : List String → String → Option String
  first_signal [] line = none
  first_signal (signal ∷ rest) line =
      let later = first_signal rest line in if signals signal line then some signal else later

  pub changed_lines_carry_policy : List String → List String → Option String
  unfolding first_signal
  changed_lines_carry_policy policy_signals [] = none
  changed_lines_carry_policy policy_signals (line ∷ lines) =
      let later = changed_lines_carry_policy policy_signals lines in
      elim (first_signal policy_signals line) [ none ↦ later | some signal ↦ some signal ]

  add_file : Bool → String → ControlReason → ControlPlaneAssessment → ControlPlaneAssessment
  add_file bearing path reason a = record {
    affected = true;
    policy_bearing = bearing || a.policy_bearing;
    files = path ∷ a.files;
    reasons = reason ∷ a.reasons;
  }

  -- The loop over the files, with what the later files add.
  pub assess_files : LoopPolicy → List DiffFile → ControlPlaneAssessment
  unfolding add_file
  assess_files policy [] = record {
    affected = false;
    policy_bearing = false;
    files = [];
    reasons = [];
  }
  assess_files policy (file ∷ files) =
      let later = assess_files policy files in
      let structural = matches_any_glob policy.control_plane.patterns file.path in
      let always = matches_any_glob policy.control_plane.always_policy file.path in
      let by =
        changed_lines_carry_policy policy.control_plane.policy_signals
          (file.added_lines ++ file.removed_lines) in
      if always then add_file true file.path (by_definition file.path) later else elim by [
        | some signal ↦ add_file true file.path (by_signal file.path signal) later
        | none ↦
            if structural then add_file false file.path (own_machinery file.path) later else later
      ]

  unfoldable pub assess_control_plane : PullRequestDiff → LoopPolicy → ControlPlaneAssessment
  unfolding assess_files changed_lines_carry_policy
  assess_control_plane diff policy = assess_files policy diff.files

-- `UNSAFE_WORKFLOW_PATTERNS`
abbrev unsafe_workflow_patterns : List (Re × String)
unsafe_workflow_patterns =
    (
      all_of (start ∷ star space ∷ literal "pull_request_target" ∷ star space ∷ literal ":" ∷ []),
      "`pull_request_target` runs with repository secrets against untrusted pull request code.",
    )
    ∷ (
      all_of (
          start
          ∷ star space
          ∷ literal "permissions"
          ∷ star space
          ∷ literal ":"
          ∷ star space
          ∷ literal "write-all"
          ∷ star space
          ∷ end
          ∷ []),
      "`permissions: write-all` grants every scope rather than the ones needed.",
    )
    ∷ (
      alt (literal "ACTIONS_STEP_DEBUG") (literal "ACTIONS_RUNNER_DEBUG"),
      "Debug logging can print secret values into a public log.",
    )
    ∷ (
      all_of (
          word_boundary
          ∷ literal "curl"
          ∷ word_boundary
          ∷ star (not_in_set "|\n")
          ∷ literal "|"
          ∷ star space
          ∷ maybe (literal "ba")
          ∷ literal "sh"
          ∷ word_boundary
          ∷ []),
      "Piping a downloaded script straight into a shell executes unreviewed code.",
    )
    ∷ (
      all_of (
          literal "${{"
          ∷ star space
          ∷ literal "github.event."
          ∷ any_of (literal "issue")
              (literal "pull_request" ∷ literal "comment" ∷ literal "review" ∷ [])
          ∷ literal "."
          ∷ star (in_set "abcdefghijklmnopqrstuvwxyz_.")
          ∷ any_of (literal "body") (literal "title" ∷ [])
          ∷ []),
      "Interpolating issue or pull request text into a run step is command injection: the text is written by whoever can comment.",
    )
    ∷ []

unsafe_constructs : DiffFile → List (Re × String) → List Finding
unsafe_constructs file [] = []
unsafe_constructs file ((pattern', detail) ∷ rest) =
    let later = unsafe_constructs file rest in
    if any (test pattern') file.added_lines
    then record {
      severity = Severity.critical;
      file = some file.path;
      line = none;
      description = concat ("This workflow change introduces an unsafe construct. " ∷ detail ∷ []);
      suggested_action =
          "Remove it. If the workflow genuinely needs this, it belongs in its own issue with a stated threat model.";
      source = "control-plane";
      category = "security";
    }
      ∷ later
    else later

unsafe_in : List DiffFile → List Finding
unfolding unsafe_constructs
unsafe_in [] = []
unsafe_in (file ∷ files) =
    let later = unsafe_in files in
    if matches_any_glob (".github/workflows/**" ∷ []) file.path
    then unsafe_constructs file unsafe_workflow_patterns ++ later
    else later

unfoldable pub find_unsafe_workflow_changes : PullRequestDiff → List Finding
unfolding unsafe_in
find_unsafe_workflow_changes diff = unsafe_in diff.files

unfoldable pub stricter_risk : RiskLevel → RiskLevel → RiskLevel
stricter_risk base proposed = if leb (risk_order proposed) (risk_order base) then base else proposed
