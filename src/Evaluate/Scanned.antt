-- ===== src/Evaluate/Scanned.antt =====
-- What an automatic merge implies of the lines that the pull request brings.
use space_elysiajs_orpc.Prelude.{
  String, Bool, true, false, Option, none, some, List, [], ◌∷◌, ◌≡◌, refl, arith, any, any-of_mem,
  Memᴰ, Bool-cases, inl, inr, ◌&&◌, ◌||◌, not, ◌∙◌, sym, is_empty,
}
use space_elysiajs_orpc.Policy.{Severity, is_at_least_severity}
use space_elysiajs_orpc.Diff.{DiffFile, PullRequestDiff}
use space_elysiajs_orpc.Glob.{matches_any_glob}
use space_elysiajs_orpc.Detect.{find_destructive_sql}
use space_elysiajs_orpc.Detect.Changes.{DependencyChange, dependency_changes}
use space_elysiajs_orpc.Regexp.{test}
use space_elysiajs_orpc.Review.{Finding}
use space_elysiajs_orpc.Review.Merging.{any_blocking}
use space_elysiajs_orpc.Gate.{auto_merge}
use space_elysiajs_orpc.Checks.{run_deterministic_checks}
use space_elysiajs_orpc.Checks.Paths.{is_code_file}
use space_elysiajs_orpc.Checks.Secrets.{secret_in}
use space_elysiajs_orpc.Checks.ClientSafety.{client_safe_globs, forbidden_import}
use space_elysiajs_orpc.Checks.Migrations.{migration_globs, touched_schema, added_migration}
use space_elysiajs_orpc.Checks.DependencyEdits.{is_upgrade}
use space_elysiajs_orpc.Checks.DebugArtifacts.{debugger_statement, marked_test}
use space_elysiajs_orpc.Checks.Coverage.{is_test_file}
use space_elysiajs_orpc.Checks.Integrity.{is_deleted_test}
use space_elysiajs_orpc.Checks.Blocking.{any_blocking-run_deterministic_checks}
use space_elysiajs_orpc.Checks.Blocking.Contents.{
  is_some, adds_secret, imports_server, destroys_data, is_major_upgrade, upgrades_major,
}
use space_elysiajs_orpc.Checks.Blocking.Testing.{leaves_debugging, weakens_cases, weakens_tests}
use space_elysiajs_orpc.Evaluate.{Evaluation, evaluate}
use space_elysiajs_orpc.Evaluate.Safety.{evaluate-IsSound}

-- No file of a diff brings what the checks block on.
pub record IsClean (locale_le : String → String → Bool) (diff : PullRequestDiff) : Type 0 where
  pub no_secret :
      (file : DiffFile) (line : String)
      → Memᴰ file diff.files
      → Memᴰ line file.added_lines
      → secret_in line ≡ none
  pub no_server_import :
      (file : DiffFile) (line : String)
      → Memᴰ file diff.files
      → matches_any_glob client_safe_globs file.path ≡ true
      → Memᴰ line file.added_lines
      → forbidden_import line ≡ none
  pub no_destruction :
      (file : DiffFile)
      → Memᴰ file diff.files
      → matches_any_glob migration_globs file.path ≡ true
      → find_destructive_sql file.added_lines ≡ []
  pub migrated : touched_schema diff ≡ true → added_migration diff ≡ true
  pub no_major_upgrade :
      (file : DiffFile) (change : DependencyChange)
      → Memᴰ file diff.files
      → Memᴰ change (dependency_changes locale_le file)
      → is_upgrade change.kind ≡ true
      → change.major ≡ false
  pub no_debugging :
      (file : DiffFile) (line : String)
      → Memᴰ file diff.files
      → is_code_file file.path ≡ true
      → Memᴰ line file.added_lines
      → (test debugger_statement line ≡ false) × (test (marked_test "only") line ≡ false)
  pub tests_kept :
      (file : DiffFile)
      → Memᴰ file diff.files
      → is_code_file file.path ≡ true
      → is_test_file file ≡ true
      → (is_deleted_test file ≡ false) × (weakens_cases file ≡ false)

none_of_mem {ℓ} :
    {A : Type ℓ} (p : A → Bool) {a : A} {xs : List A} → any p xs ≡ false → Memᴰ a xs → p a ≡ false
none_of_mem p {a} {xs} h m = elim (Bool-cases (p a)) [
  | inl e ↦ absurd (cc (h, any-of_mem p a xs m e))
  | inr e ↦ e
]

none_of_is_some : (o : Option String) → is_some o ≡ false → o ≡ none
none_of_is_some none h = refl
none_of_is_some (some s) h = cc

nil_of_is_empty {ℓ} : {A : Type ℓ} (l : List A) → not (is_empty l) ≡ false → l ≡ []
nil_of_is_empty [] h = refl
nil_of_is_empty (x ∷ l) h = cc

-- What is not blocked at a lower bar is not blocked at a higher one.
clean_above :
    (bar : Severity) (l : List Finding)
    → is_at_least_severity Severity.high bar ≡ true
    → any_blocking bar l ≡ false
    → any_blocking Severity.high l ≡ false
unfolding is_at_least_severity
clean_above bar [] le h = refl
clean_above bar (f ∷ l) le h = ground (arith, clean_above bar l le)

or_false : {a b : Bool} → (a || b) ≡ false → (a ≡ false) × (b ≡ false)
or_false h = ground arith

and_left : {a b : Bool} → a ≡ true → (a && b) ≡ false → b ≡ false
and_left g h = ground arith

and_right : {a b : Bool} → b ≡ true → (a && b) ≡ false → a ≡ false
and_right g h = ground arith

any_blocking-IsClean :
    (locale_le : String → String → Bool) (diff : PullRequestDiff)
    → any_blocking Severity.high (run_deterministic_checks locale_le diff) ≡ false
    → IsClean locale_le diff
any_blocking-IsClean locale_le diff h =
    let (secrets, rest) =
      or_false (sym (any_blocking-run_deterministic_checks locale_le diff) ∙ h) in
    let (imports, rest2) = or_false rest in
    let (data_loss, rest3) = or_false rest2 in
    let (destroyed, unmigrated) = or_false data_loss in
    let (majors, rest4) = or_false rest3 in
    let (debugging, weakened) = or_false rest4 in
    record {
      no_secret = λ file line m n.
          none_of_is_some _
            (none_of_mem (λ l. is_some (secret_in l)) (none_of_mem adds_secret secrets m) n);
      no_server_import = λ file line m g n. none_of_is_some _ (
          none_of_mem (λ l. is_some (forbidden_import l))
            (and_left g (none_of_mem imports_server imports m)) n);
      no_destruction =
          λ file m g. nil_of_is_empty _ (and_left g (none_of_mem destroys_data destroyed m));
      migrated = λ t. ground (arith, and_left t unmigrated);
      no_major_upgrade = λ file change m n u.
          and_right u
            (none_of_mem is_major_upgrade (none_of_mem (upgrades_major locale_le) majors m) n);
      no_debugging = λ file line m c n.
          let (a, b) = or_false (and_left c (none_of_mem leaves_debugging debugging m)) in
          (none_of_mem (test debugger_statement) a n, none_of_mem (test (marked_test "only")) b n);
      tests_kept = λ file m c t.
          let (deleted, rest) = or_false (and_left c (none_of_mem weakens_tests weakened m)) in
          (deleted, and_left t (or_false rest).0);
    }

-- Whatever was collected, under a blocking severity of high or below: a pull request that an
-- evaluation decides to merge automatically adds no line that the checks take for a credential, or
-- in a client package for a server-only import, and in a migration no destructive SQL that they
-- find; adds a migration where it changes the schema; upgrades no dependency by a major version that
-- they see; adds no `debugger` statement and no `.only` to a code file; and no test file with the
-- extension of code is deleted, gains more markers of skipped, pending or failing tests than it
-- loses, or gains a `.only` or one of the assertions on a constant that the checks know.
pub evaluate-IsClean :
    (lower : String → String) (locale_le signals : String → String → Bool) (e : Evaluation)
    → is_at_least_severity Severity.high e.policy.blocking_severity ≡ true
    → (evaluate lower locale_le signals e).outcome.decision ≡ auto_merge
    → IsClean locale_le e.diff
evaluate-IsClean lower locale_le signals e bar h = any_blocking-IsClean locale_le e.diff (
    clean_above e.policy.blocking_severity (run_deterministic_checks locale_le e.diff) bar
      (evaluate-IsSound lower locale_le signals e h).checks_clean)
