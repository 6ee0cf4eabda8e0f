-- ===== src/Checks/Blocking/Contents.antt =====
-- What blocks among credentials, imports, migrations and dependencies.
use space_elysiajs_orpc.Prelude.{
  String, Bool, true, false, Option, none, some, List, [], ◌∷◌, map, any, not, is_empty, ◌&&◌, ◌||◌,
  if◌then◌else◌, ◌≡◌, refl, ap, ◌∙◌,
}
use space_elysiajs_orpc.Policy.{is_at_least_severity}
use space_elysiajs_orpc.Diff.{DiffFile, PullRequestDiff}
use space_elysiajs_orpc.Glob.{matches_any_glob}
use space_elysiajs_orpc.Detect.{find_destructive_sql, DestructiveStatement}
use space_elysiajs_orpc.Detect.Changes.{DependencyChange, dependency_changes}
use space_elysiajs_orpc.Checks.Paths.{for_each}
use space_elysiajs_orpc.Checks.Secrets.{check_secrets, secret_in, report_secret, secret_finding}
use space_elysiajs_orpc.Checks.ClientSafety.{
  check_client_safety, client_safe_globs, forbidden_import, imports_of_file, report_import,
  import_finding,
}
use space_elysiajs_orpc.Checks.Migrations.{
  check_migrations, migration_globs, touched_schema, added_migration, destructive_of_file,
  destructive_finding, schema_finding,
}
use space_elysiajs_orpc.Checks.DependencyEdits.{
  check_dependencies, is_upgrade, is_addition, findings_of_change, addition_finding,
  upgrade_finding,
}
use space_elysiajs_orpc.Checks.Blocking.Guards.{
  any_cong, any-for_each, any-if, serious, serious-append, raised, muted,
}

abbrev pub is_some : Option String → Bool
is_some none = false
is_some (some s) = true

abbrev pub adds_secret : DiffFile → Bool
adds_secret file = any (λ line. is_some (secret_in line)) file.added_lines

report_secret_lem : (path : String) (o : Option String) → serious (report_secret path o) ≡ is_some o
unfolding report_secret secret_finding is_at_least_severity
report_secret_lem path none = refl
report_secret_lem path (some name) = refl

pub secrets_lem :
    (diff : PullRequestDiff) → serious (check_secrets diff) ≡ any adds_secret diff.files
unfolding check_secrets
secrets_lem diff =
    any-for_each _ _ diff.files
    ∙ any_cong
        (λ file.
          any-for_each _ _ file.added_lines
          ∙ any_cong (λ line. report_secret_lem file.path (secret_in line)) file.added_lines)
        diff.files

abbrev pub imports_server : DiffFile → Bool
imports_server file =
    matches_any_glob client_safe_globs file.path
    && any (λ line. is_some (forbidden_import line)) file.added_lines

report_import_lem : (path : String) (o : Option String) → serious (report_import path o) ≡ is_some o
unfolding report_import import_finding is_at_least_severity
report_import_lem path none = refl
report_import_lem path (some specifier) = refl

pub client_safety_lem :
    (diff : PullRequestDiff) → serious (check_client_safety diff) ≡ any imports_server diff.files
unfolding check_client_safety imports_of_file
client_safety_lem diff =
    any-for_each _ _ diff.files
    ∙ any_cong
        (λ file.
          any-if _ (matches_any_glob client_safe_globs file.path) _
          ∙ ap (λ b. matches_any_glob client_safe_globs file.path && b)
              (any-for_each _ _ file.added_lines
                ∙ any_cong (λ line. report_import_lem file.path (forbidden_import line))
                    file.added_lines))
        diff.files

abbrev pub destroys_data : DiffFile → Bool
destroys_data file =
    matches_any_glob migration_globs file.path
    && not (is_empty (find_destructive_sql file.added_lines))

serious_statements :
    (path : String) (l : List DestructiveStatement)
    → serious (map (destructive_finding path) l) ≡ not (is_empty l)
unfolding destructive_finding is_at_least_severity
serious_statements path [] = refl
serious_statements path (s ∷ l) = refl

abbrev pub lacks_migration : PullRequestDiff → Bool
lacks_migration diff = touched_schema diff && not (added_migration diff)

pub migrations_lem :
    (diff : PullRequestDiff)
    → serious (check_migrations diff) ≡ (any destroys_data diff.files || lacks_migration diff)
unfolding check_migrations destructive_of_file schema_finding is_at_least_severity
migrations_lem diff =
    serious-append (for_each destructive_of_file diff.files) _
      (any-for_each _ _ diff.files
        ∙ any_cong
            (λ file.
              any-if _ (matches_any_glob migration_globs file.path) _
              ∙ ap (λ b. matches_any_glob migration_globs file.path && b)
                  (serious_statements file.path (find_destructive_sql file.added_lines)))
            diff.files)
      (raised (lacks_migration diff) schema_finding refl)

abbrev pub is_major_upgrade : DependencyChange → Bool
is_major_upgrade change = change.major && is_upgrade change.kind

abbrev pub upgrades_major : (String → String → Bool) → DiffFile → Bool
upgrades_major locale_le file = any is_major_upgrade (dependency_changes locale_le file)

findings_of_change_lem :
    (path : String) (change : DependencyChange)
    → serious (findings_of_change path change) ≡ is_major_upgrade change
unfolding findings_of_change addition_finding upgrade_finding is_at_least_severity
findings_of_change_lem path change =
    serious-append (if is_addition change.kind then addition_finding path change ∷ [] else []) _
      (muted (is_addition change.kind) (addition_finding path change) refl)
      (raised (is_major_upgrade change) (upgrade_finding path change) refl)

pub dependencies_lem :
    (locale_le : String → String → Bool) (diff : PullRequestDiff)
    → serious (check_dependencies locale_le diff) ≡ any (upgrades_major locale_le) diff.files
unfolding check_dependencies
dependencies_lem locale_le diff =
    any-for_each _ _ diff.files
    ∙ any_cong
        (λ file.
          any-for_each _ _ (dependency_changes locale_le file)
          ∙ any_cong (findings_of_change_lem file.path) (dependency_changes locale_le file))
        diff.files
