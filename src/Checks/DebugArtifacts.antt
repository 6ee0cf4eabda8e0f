-- ===== src/Checks/DebugArtifacts.antt =====
-- tooling/loop/src/checks/debug-artifacts.ts: leftovers among the lines that a pull request adds.
use space_elysiajs_orpc.Prelude.{String, none, some, List, [], ◌∷◌, any, if◌then◌else◌, concat}
use space_elysiajs_orpc.Policy.{Severity}
use space_elysiajs_orpc.Diff.{DiffFile, PullRequestDiff}
use space_elysiajs_orpc.Review.{Finding}
use space_elysiajs_orpc.Regexp.{Re, start, end, word_boundary, alt, star, test}
use space_elysiajs_orpc.Regexp.Classes.{space, not_in_set, literal, maybe, all_of, any_of}
use space_elysiajs_orpc.Checks.Paths.{for_each, is_code_file}

pub record Artifact : Type 0 where
  pub name : String
  pub pattern' : Re
  pub severity : Severity

-- `/(^|[^\w.])debugger\s*;?\s*$/`
abbrev pub debugger_statement : Re
debugger_statement = all_of (
    alt start (not_in_set "ABCDEFGHIJKLMNOPQRSTUVWXYZabcdefghijklmnopqrstuvwxyz0123456789_.")
    ∷ literal "debugger"
    ∷ star space
    ∷ maybe (literal ";")
    ∷ star space
    ∷ end
    ∷ [])

-- `/\b(?:describe|it|test)\.only\s*\(/` and its like.
abbrev pub marked_test : String → Re
marked_test marker = all_of (
    word_boundary
    ∷ any_of (literal "describe") (literal "it" ∷ literal "test" ∷ [])
    ∷ literal "."
    ∷ literal marker
    ∷ star space
    ∷ literal "("
    ∷ [])

-- `/\/\/\s*FIXME\b/`
abbrev fixme_comment : Re
fixme_comment = all_of (literal "//" ∷ star space ∷ literal "FIXME" ∷ word_boundary ∷ [])

-- `ARTIFACTS`
abbrev pub artifacts : List Artifact
artifacts =
    record { name = "debugger statement"; pattern' = debugger_statement; severity = Severity.high }
    ∷ record { name = "focused test"; pattern' = marked_test "only"; severity = Severity.high }
    ∷ record {
      name = "unconditionally skipped test";
      pattern' = marked_test "skip";
      severity = Severity.medium;
    }
    ∷ record { name = "commented-out FIXME"; pattern' = fixme_comment; severity = Severity.medium }
    ∷ []

unfoldable pub artifact_finding : String → Artifact → Finding
artifact_finding path artifact = record {
  severity = artifact.severity;
  file = some path;
  line = none;
  description = concat (artifact.name ∷ " added in " ∷ path ∷ "." ∷ []);
  suggested_action = "Remove it before merging.";
  source = "check:debug-artifacts";
  category = "hygiene";
}

unfoldable pub artifact_in : DiffFile → Artifact → List Finding
unfolding artifact_finding
artifact_in file artifact =
    if any (test artifact.pattern') file.added_lines
    then artifact_finding file.path artifact ∷ []
    else []

unfoldable pub artifacts_of_file : DiffFile → List Finding
unfolding artifact_in for_each
artifacts_of_file file =
    if is_code_file file.path then for_each (artifact_in file) artifacts else []

unfoldable pub check_debug_artifacts : PullRequestDiff → List Finding
unfolding artifacts_of_file for_each
check_debug_artifacts diff = for_each artifacts_of_file diff.files
