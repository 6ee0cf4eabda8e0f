-- ===== src/Checks/Integrity.antt =====
-- tooling/loop/src/checks/test-integrity.ts: tests weakened rather than satisfied.
use space_elysiajs_orpc.Prelude.{
  ℕ, ◌-◌, ◌*◌, String, Bool, true, false, none, some, List, [], ◌∷◌, ◌++◌, any, filter, is_empty,
  not, ◌&&◌, ltb, if◌then◌else◌, concat, length, show,
}
use space_elysiajs_orpc.Policy.{Severity}
use space_elysiajs_orpc.Diff.{DiffFile, PullRequestDiff, FileStatus}
use space_elysiajs_orpc.Detect.{trim}
use space_elysiajs_orpc.Review.{Finding}
use space_elysiajs_orpc.Regexp.{Re, end, word_boundary, alt, star, not_ahead, test, text_take}
use space_elysiajs_orpc.Regexp.Classes.{space, not_in_set, literal, plus, all_of, any_of}
use space_elysiajs_orpc.Checks.Paths.{for_each, is_code_file}
use space_elysiajs_orpc.Checks.Coverage.{is_test_file}

-- `SKIP_MARKER` and `ONLY_MARKER`: `/\b(?:describe|test|it)\s*\.\s*…\b/`
abbrev marker : Re → Re
marker name = all_of (
    word_boundary
    ∷ any_of (literal "describe") (literal "test" ∷ literal "it" ∷ [])
    ∷ star space
    ∷ literal "."
    ∷ star space
    ∷ name
    ∷ word_boundary
    ∷ [])

abbrev pub skip_marker : Re
skip_marker = marker (any_of (literal "skip") (literal "todo" ∷ literal "failing" ∷ []))

abbrev pub only_marker : Re
only_marker = marker (literal "only")

-- `true|1|'[^']*'|"[^"]*"|\[\s*\]|\{\s*\}`
abbrev constant : Re
constant = any_of (literal "true") (
    literal "1"
    ∷ all_of (literal "'" ∷ star (not_in_set "'") ∷ literal "'" ∷ [])
    ∷ all_of (literal "\"" ∷ star (not_in_set "\"") ∷ literal "\"" ∷ [])
    ∷ all_of (literal "[" ∷ star space ∷ literal "]" ∷ [])
    ∷ all_of (literal "{" ∷ star space ∷ literal "}" ∷ [])
    ∷ [])

-- `VACUOUS_ASSERTION`
abbrev pub vacuous_assertion : Re
vacuous_assertion = all_of (
    literal "expect("
    ∷ star space
    ∷ constant
    ∷ star space
    ∷ literal ")"
    ∷ star space
    ∷ literal "."
    ∷ star space
    ∷ any_of (literal "toBe")
        (literal "toEqual" ∷ literal "toBeTruthy" ∷ literal "toBeDefined" ∷ [])
    ∷ [])

-- `BROAD_SUPPRESSION`
abbrev pub broad_suppression : List (Re × String)
broad_suppression =
    (literal "@ts-nocheck", "`@ts-nocheck` disables type checking for an entire file.")
    ∷ (
      alt (literal "biome-ignore-all") (
          all_of
            (literal "biome-ignore" ∷ plus space ∷ literal "lint" ∷ star space ∷ literal ":" ∷ [])),
      "A file-wide lint suppression hides every instance of the rule, not the one in hand.",
    )
    ∷ (
      all_of (literal "eslint-disable" ∷ not_ahead (literal "-next-line") ∷ []),
      "A file-wide `eslint-disable` hides every instance of the rule.",
    )
    ∷ []

-- `BARE_TS_SUPPRESSION`
abbrev pub bare_ts_suppression : Re
bare_ts_suppression =
    all_of
      (literal "@ts-" ∷ alt (literal "expect-error") (literal "ignore") ∷ star space ∷ end ∷ [])

abbrev is_removed : FileStatus → Bool
is_removed FileStatus.removed = true
is_removed _ = false

-- The lines that match.
abbrev pub count : Re → List String → ℕ
count pattern' lines = length (filter (test pattern') lines)

-- `finding(severity, description, suggested_action)`
unfoldable pub finding : String → Severity → String → String → Finding
finding path severity description suggested_action = record {
  severity = severity;
  file = some path;
  line = none;
  description = description;
  suggested_action = suggested_action;
  source = "check:test-integrity";
  category = "testing";
}

unfoldable pub is_deleted_test : DiffFile → Bool
is_deleted_test file = is_test_file file && is_removed file.status

unfoldable pub has_more_skips : DiffFile → Bool
has_more_skips file =
    ltb (count skip_marker file.removed_lines) (count skip_marker file.added_lines)

unfoldable pub has_shrunk : DiffFile → Bool
has_shrunk file =
    ltb 20 (length file.removed_lines)
    && ltb (length file.added_lines * 3) (length file.removed_lines)

first_vacuous : List String → String
first_vacuous [] = "undefined"
first_vacuous (line ∷ lines) = text_take 120 (trim line)

unfoldable pub skipped_finding : DiffFile → Finding
unfolding finding
skipped_finding file =
    finding file.path Severity.high
      (concat (
        show (count skip_marker file.added_lines - count skip_marker file.removed_lines)
        ∷ " test(s) were skipped, marked todo, or marked failing."
        ∷ []))
      "Make the test pass instead. If it is genuinely obsolete, delete it in an issue that says so."

unfoldable pub only_finding : DiffFile → Finding
unfolding finding
only_finding file =
    finding file.path Severity.high
      "A `.only` marker was added, which silently stops every other test in the file from running."
      "Remove it — it is a local debugging aid, not something to commit."

unfoldable pub vacuous_finding : DiffFile → List String → Finding
unfolding finding first_vacuous
vacuous_finding file vacuous =
    finding file.path Severity.high
      (concat (
        show (length vacuous)
        ∷ " assertion(s) were added that cannot fail, e.g. `"
        ∷ first_vacuous vacuous
        ∷ "`."
        ∷ []))
      "Assert the actual behaviour. An assertion that always passes is worse than no test: it reports coverage it does not have."

unfoldable pub shrunk_finding : DiffFile → Finding
unfolding finding
shrunk_finding file =
    finding file.path Severity.medium
      (concat (
        "This test file lost "
        ∷ show (length file.removed_lines)
        ∷ " lines and gained "
        ∷ show (length file.added_lines)
        ∷ ", a substantial net reduction in coverage."
        ∷ []))
      "Confirm the removed cases are genuinely obsolete rather than inconvenient."

unfoldable pub inspect_test_file : DiffFile → List Finding
unfolding skipped_finding only_finding vacuous_finding shrunk_finding
inspect_test_file file =
    let vacuous = filter (test vacuous_assertion) file.added_lines in
    (if has_more_skips file then skipped_finding file ∷ [] else [])
    ++ ((if any (test only_marker) file.added_lines then only_finding file ∷ [] else [])
        ++ ((if not (is_empty vacuous) then vacuous_finding file vacuous ∷ [] else [])
            ++ (if has_shrunk file then shrunk_finding file ∷ [] else [])))

-- One of the broad suppressions.
unfoldable pub adds_more : DiffFile → Re × String → Bool
adds_more file suppression =
    ltb (count suppression.0 file.removed_lines) (count suppression.0 file.added_lines)

unfoldable pub broad_finding : DiffFile → String → Finding
unfolding finding
broad_finding file detail =
    finding file.path Severity.high (concat ("A broad suppression was added. " ∷ detail ∷ []))
      "Fix the underlying problem, or narrow the suppression to the single line and explain it."

unfoldable pub suppression_in : DiffFile → Re × String → List Finding
unfolding adds_more broad_finding
suppression_in file suppression =
    if adds_more file suppression then broad_finding file suppression.1 ∷ [] else []

unfoldable pub bare_finding : DiffFile → List String → Finding
unfolding finding
bare_finding file bare =
    finding file.path Severity.medium
      (concat (show (length bare) ∷ " type suppression(s) were added with no explanation." ∷ []))
      "Add a reason after the directive, or fix the type error. An unexplained suppression is indistinguishable from giving up."

unfoldable pub inspect_suppressions : DiffFile → List Finding
unfolding suppression_in bare_finding for_each
inspect_suppressions file =
    let bare = filter (test bare_ts_suppression) file.added_lines in
    for_each (suppression_in file) broad_suppression
    ++ (if not (is_empty bare) then bare_finding file bare ∷ [] else [])

unfoldable pub deleted_finding : DiffFile → Finding
unfolding finding
deleted_finding file =
    finding file.path Severity.high "A test file was deleted."
      "Restore it, or state in the issue why the behaviour it covered no longer needs a test."

unfoldable pub integrity_of_file : DiffFile → List Finding
unfolding inspect_test_file inspect_suppressions deleted_finding
integrity_of_file file =
    let inspected =
      (if is_test_file file then inspect_test_file file else []) ++ inspect_suppressions file in
    if is_code_file file.path
    then if is_deleted_test file then deleted_finding file ∷ [] else inspected
    else []

unfoldable pub check_test_integrity : PullRequestDiff → List Finding
unfolding integrity_of_file for_each
check_test_integrity diff = for_each integrity_of_file diff.files
