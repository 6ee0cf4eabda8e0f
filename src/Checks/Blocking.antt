-- ===== src/Checks/Blocking.antt =====
-- What of a pull request the deterministic checks block on.
pub mod Guards
pub mod Contents
pub mod Testing
use space_elysiajs_orpc.Prelude.{
  ℕ, ltb, String, Bool, true, false, Option, none, some, List, [], ◌∷◌, ◌++◌, map, any, not,
  is_empty, ◌&&◌, ◌||◌, if◌then◌else◌, ◌≡◌, refl, ap, sym, ◌∙◌, arith, any-append, Bool-cases, inl,
  inr, filter, is_empty-filter,
}
use space_elysiajs_orpc.Policy.{Severity, is_at_least_severity}
use space_elysiajs_orpc.Diff.{DiffFile, PullRequestDiff}
use space_elysiajs_orpc.Glob.{matches_any_glob}
use space_elysiajs_orpc.Detect.{find_destructive_sql, DestructiveStatement}
use space_elysiajs_orpc.Detect.Changes.{DependencyChange, dependency_changes}
use space_elysiajs_orpc.Regexp.{Re, test}
use space_elysiajs_orpc.Review.{Finding}
use space_elysiajs_orpc.Review.Merging.{any_blocking}
use space_elysiajs_orpc.Checks.{run_deterministic_checks}
use space_elysiajs_orpc.Checks.Paths.{for_each, is_code_file}
use space_elysiajs_orpc.Checks.Secrets.{check_secrets, secret_in, report_secret, secret_finding}
use space_elysiajs_orpc.Checks.ClientSafety.{
  check_client_safety, client_safe_globs, forbidden_import, imports_of_file, report_import,
  import_finding,
}
use space_elysiajs_orpc.Checks.Migrations.{
  check_migrations, migration_globs, touched_schema, added_migration, destructive_of_file,
  destructive_finding, schema_finding,
}
use space_elysiajs_orpc.Checks.DependencyEdits.{
  check_dependencies, is_upgrade, is_addition, findings_of_change, addition_finding,
  upgrade_finding,
}
use space_elysiajs_orpc.Checks.DebugArtifacts.{
  check_debug_artifacts, Artifact, debugger_statement, marked_test, artifacts, artifact_in,
  artifacts_of_file, artifact_finding,
}
use space_elysiajs_orpc.Checks.Coverage.{
  check_test_coverage, coverage_finding, is_test_file, is_behavioural_source,
}
use space_elysiajs_orpc.Checks.Integrity.{
  check_test_integrity, is_deleted_test, has_more_skips, has_shrunk, only_marker, vacuous_assertion,
  broad_suppression, adds_more, suppression_in, inspect_suppressions, inspect_test_file,
  integrity_of_file, finding, skipped_finding, only_finding, vacuous_finding, shrunk_finding,
  bare_finding, broad_finding, deleted_finding, bare_ts_suppression,
}
use Guards.{any_cong, any-for_each, any-if, is_serious, serious, serious-append, raised, muted}
use Contents.{
  adds_secret, secrets_lem, imports_server, client_safety_lem, destroys_data, lacks_migration,
  migrations_lem, is_major_upgrade, upgrades_major, dependencies_lem, is_some,
}
use Testing.{
  leaves_debugging, debug_artifacts_lem, coverage_lem, weakens_cases, weakens_tests, integrity_lem,
}

-- The deterministic checks have a finding of severity high or above exactly where some file adds a
-- credential shape, imports what is server-only into a client package, destroys data in a migration,
-- upgrades a dependency by a major version, leaves a debugger statement or a focused test, or weakens
-- the tests (deletes a test file, skips more cases than it restores, focuses one, asserts a constant
-- or suppresses a whole file's warnings); or where the schema changes and no migration is added.
pub any_blocking-run_deterministic_checks :
    (locale_le : String → String → Bool) (diff : PullRequestDiff)
    → any_blocking Severity.high (run_deterministic_checks locale_le diff) ≡ (
        any adds_secret diff.files
        || (any imports_server diff.files
            || ((any destroys_data diff.files || lacks_migration diff)
                || (any (upgrades_major locale_le) diff.files
                    || (any leaves_debugging diff.files || any weakens_tests diff.files)))))
unfolding run_deterministic_checks
any_blocking-run_deterministic_checks locale_le diff =
    serious-append (check_secrets diff) _ (secrets_lem diff) (
      serious-append (check_client_safety diff) _ (client_safety_lem diff) (
        serious-append (check_migrations diff) _ (migrations_lem diff) (
          serious-append (check_dependencies locale_le diff) _ (dependencies_lem locale_le diff) (
            serious-append (check_debug_artifacts diff) _ (debug_artifacts_lem diff) (
              serious-append (check_test_coverage diff) _ (coverage_lem diff)
                (integrity_lem diff))))))
