-- ===== src/Checks/Blocking/Testing.antt =====
-- What blocks among leftovers and weakened tests.
use space_elysiajs_orpc.Prelude.{
  Bool, true, false, List, [], ◌∷◌, ◌++◌, any, not, is_empty, ◌&&◌, ◌||◌, if◌then◌else◌, ◌≡◌, refl,
  ap, ◌∙◌, arith, filter,
}
use space_elysiajs_orpc.Policy.{Severity, is_at_least_severity}
use space_elysiajs_orpc.Diff.{DiffFile, PullRequestDiff}
use space_elysiajs_orpc.Regexp.{test}
use space_elysiajs_orpc.Review.{Finding}
use space_elysiajs_orpc.Checks.Paths.{for_each, is_code_file}
use space_elysiajs_orpc.Checks.DebugArtifacts.{
  check_debug_artifacts, Artifact, debugger_statement, marked_test, artifact_in, artifacts_of_file,
  artifact_finding,
}
use space_elysiajs_orpc.Checks.Coverage.{
  check_test_coverage, coverage_finding, is_test_file, is_behavioural_source,
}
use space_elysiajs_orpc.Checks.Integrity.{
  check_test_integrity, is_deleted_test, has_more_skips, has_shrunk, only_marker, vacuous_assertion,
  broad_suppression, adds_more, suppression_in, inspect_suppressions, inspect_test_file,
  integrity_of_file, finding, skipped_finding, only_finding, vacuous_finding, shrunk_finding,
  bare_finding, broad_finding, deleted_finding, bare_ts_suppression,
}
use space_elysiajs_orpc.Checks.Blocking.Guards.{
  any_cong, any-for_each, any-if, is_serious, serious, serious-append, raised, muted,
}

-- A `debugger` statement or a focused test among the lines that are added.
abbrev pub leaves_debugging : DiffFile → Bool
leaves_debugging file =
    is_code_file file.path
    && (any (test debugger_statement) file.added_lines
        || any (test (marked_test "only")) file.added_lines)

artifact_raised :
    (file : DiffFile) (a : Artifact)
    → is_at_least_severity a.severity Severity.high ≡ true
    → serious (artifact_in file a) ≡ any (test a.pattern') file.added_lines
unfolding artifact_in artifact_finding
artifact_raised file a h =
    raised (any (test a.pattern') file.added_lines) (artifact_finding file.path a) h

artifact_muted :
    (file : DiffFile) (a : Artifact)
    → is_at_least_severity a.severity Severity.high ≡ false
    → serious (artifact_in file a) ≡ false
unfolding artifact_in artifact_finding
artifact_muted file a h =
    muted (any (test a.pattern') file.added_lines) (artifact_finding file.path a) h

serious_artifacts :
    (file : DiffFile) (a b c d : Artifact)
    → is_at_least_severity a.severity Severity.high ≡ true
    → is_at_least_severity b.severity Severity.high ≡ true
    → is_at_least_severity c.severity Severity.high ≡ false
    → is_at_least_severity d.severity Severity.high ≡ false
    → serious (for_each (artifact_in file) (a ∷ b ∷ c ∷ d ∷ []))
      ≡ (any (test a.pattern') file.added_lines || any (test b.pattern') file.added_lines)
unfolding for_each
serious_artifacts file a b c d ha hb hc hd =
    serious-append (artifact_in file a) _ (artifact_raised file a ha) (
      serious-append (artifact_in file b) _ (artifact_raised file b hb) (
        serious-append (artifact_in file c) _ (artifact_muted file c hc)
          (serious-append (artifact_in file d) [] (artifact_muted file d hd) refl)))
    ∙ ground arith

pub debug_artifacts_lem :
    (diff : PullRequestDiff)
    → serious (check_debug_artifacts diff) ≡ any leaves_debugging diff.files
unfolding check_debug_artifacts artifacts_of_file is_at_least_severity
debug_artifacts_lem diff =
    any-for_each _ _ diff.files
    ∙ any_cong
        (λ file.
          any-if _ (is_code_file file.path) _
          ∙ ap (λ b. is_code_file file.path && b)
              (serious_artifacts file _ _ _ _ refl refl refl refl))
        diff.files

unreported :
    (a b : Bool) (f : Finding)
    → is_serious f ≡ false
    → serious (if a then [] else if b then [] else f ∷ []) ≡ false
unreported true b f h = refl
unreported false true f h = refl
unreported false false f h = ground arith

pub coverage_lem : (diff : PullRequestDiff) → serious (check_test_coverage diff) ≡ false
unfolding check_test_coverage coverage_finding is_at_least_severity
coverage_lem diff =
    let changed = filter is_behavioural_source diff.files in
    unreported (is_empty changed) (not (is_empty (filter is_test_file diff.files)))
      (coverage_finding changed) refl

-- A test that is skipped, focused or cannot fail, among what a test file gains.
abbrev pub weakens_cases : DiffFile → Bool
weakens_cases file =
    has_more_skips file
    || (any (test only_marker) file.added_lines || any (test vacuous_assertion) file.added_lines)

abbrev pub weakens_tests : DiffFile → Bool
weakens_tests file =
    is_code_file file.path
    && (is_deleted_test file
        || ((is_test_file file && weakens_cases file) || any (adds_more file) broad_suppression))

is_empty-any : {A : Type 0} (p : A → Bool) (xs : List A) → not (is_empty (filter p xs)) ≡ any p xs
is_empty-any p [] = refl
is_empty-any p (x ∷ xs) = ground (arith, is_empty-any p xs)

inspect_test_file_lem : (file : DiffFile) → serious (inspect_test_file file) ≡ weakens_cases file
unfolding inspect_test_file is_at_least_severity finding skipped_finding only_finding
    vacuous_finding shrunk_finding
inspect_test_file_lem file =
    let only = any (test only_marker) file.added_lines in
    let vacuous = filter (test vacuous_assertion) file.added_lines in
    serious-append (if has_more_skips file then skipped_finding file ∷ [] else []) _
      (raised (has_more_skips file) (skipped_finding file) refl)
      (serious-append (if only then only_finding file ∷ [] else []) _
        (raised only (only_finding file) refl)
        (serious-append (if not (is_empty vacuous) then vacuous_finding file vacuous ∷ [] else []) _
          (raised (not (is_empty vacuous)) (vacuous_finding file vacuous) refl
            ∙ is_empty-any (test vacuous_assertion) file.added_lines)
          (muted (has_shrunk file) (shrunk_finding file) refl)))
    ∙ ground arith

suppressions_lem :
    (file : DiffFile) → serious (inspect_suppressions file) ≡ any (adds_more file) broad_suppression
unfolding inspect_suppressions suppression_in finding bare_finding broad_finding
    is_at_least_severity
suppressions_lem file =
    let bare = filter (test bare_ts_suppression) file.added_lines in
    serious-append (for_each (suppression_in file) broad_suppression) _
      (any-for_each is_serious (suppression_in file) broad_suppression
        ∙ any_cong (λ s. raised (adds_more file s) (broad_finding file s.1) refl) broad_suppression)
      (muted (not (is_empty bare)) (bare_finding file bare) refl)
    ∙ ground arith

by_deletion :
    {a b : Bool} (deleted : Bool) (f : Finding) (l m : List Finding)
    → is_serious f ≡ true
    → serious l ≡ a
    → serious m ≡ b
    → serious (if deleted then f ∷ [] else l ++ m) ≡ (deleted || (a || b))
by_deletion true f l m h hl hm = ground arith
by_deletion false f l m h hl hm = serious-append l m hl hm

pub integrity_lem :
    (diff : PullRequestDiff) → serious (check_test_integrity diff) ≡ any weakens_tests diff.files
unfolding check_test_integrity integrity_of_file is_at_least_severity finding deleted_finding
integrity_lem diff =
    any-for_each _ _ diff.files
    ∙ any_cong
        (λ file.
          any-if _ (is_code_file file.path) _
          ∙ ap (λ b. is_code_file file.path && b)
              (by_deletion (is_deleted_test file) (deleted_finding file)
                (if is_test_file file then inspect_test_file file else [])
                (inspect_suppressions file) refl
                (any-if is_serious (is_test_file file) (inspect_test_file file)
                  ∙ ap (λ b. is_test_file file && b) (inspect_test_file_lem file))
                (suppressions_lem file)))
        diff.files
