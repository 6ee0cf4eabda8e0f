-- ===== src/Checks/Coverage.antt =====
-- tooling/loop/src/checks/tests.ts: source that changes without a test changing with it.
use space_elysiajs_orpc.Prelude.{
  String, Bool, Option, none, some, List, [], ◌∷◌, filter, is_empty, not, ◌&&◌, if◌then◌else◌,
  concat, length, show,
}
use space_elysiajs_orpc.Policy.{Severity}
use space_elysiajs_orpc.Diff.{DiffFile, PullRequestDiff}
use space_elysiajs_orpc.Glob.{matches_any_glob}
use space_elysiajs_orpc.Review.{Finding}
use space_elysiajs_orpc.Regexp.{Re, end, test}
use space_elysiajs_orpc.Regexp.Classes.{literal, all_of, any_of}

-- `SOURCE_GLOBS`
abbrev pub source_globs : List String
source_globs = "apps/*/src/**" ∷ "packages/*/src/**" ∷ "tooling/*/src/**" ∷ []

-- `TEST_GLOBS`
abbrev pub test_globs : List String
test_globs = "**/test/**" ∷ "**/*.test.ts" ∷ "**/*.test.tsx" ∷ "e2e/**" ∷ []

-- `/\.(css|json|md|txt|svg|png|jpg|ico)$/`
abbrev non_behavioural : Re
non_behavioural = all_of (
    literal "."
    ∷ any_of (literal "css") (
        literal "json"
        ∷ literal "md"
        ∷ literal "txt"
        ∷ literal "svg"
        ∷ literal "png"
        ∷ literal "jpg"
        ∷ literal "ico"
        ∷ [])
    ∷ end
    ∷ [])

pub is_behavioural_source : DiffFile → Bool
is_behavioural_source file =
    matches_any_glob source_globs file.path
    && (not (test non_behavioural file.path) && not (is_empty file.added_lines))

pub is_test_file : DiffFile → Bool
is_test_file file = matches_any_glob test_globs file.path

path_of_first : List DiffFile → Option String
path_of_first [] = none
path_of_first (file ∷ files) = some file.path

unfoldable pub coverage_finding : List DiffFile → Finding
unfolding path_of_first
coverage_finding changed_source = record {
  severity = Severity.medium;
  file = path_of_first changed_source;
  line = none;
  description =
      concat
        (show (length changed_source) ∷ " source file(s) changed but no test file changed." ∷ []);
  suggested_action =
      "Add or update a test that fails without this change, or say in the pull request why none is needed.";
  source = "check:tests";
  category = "testing";
}

unfoldable pub check_test_coverage : PullRequestDiff → List Finding
unfolding coverage_finding is_behavioural_source is_test_file
check_test_coverage diff =
    let changed_source = filter is_behavioural_source diff.files in
    let changed_tests = filter is_test_file diff.files in
    if is_empty changed_source
    then []
    else if not (is_empty changed_tests)
    then []
    else coverage_finding changed_source ∷ []
