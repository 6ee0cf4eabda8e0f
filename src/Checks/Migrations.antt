-- ===== src/Checks/Migrations.antt =====
-- tooling/loop/src/checks/migrations.ts: destructive migrations, and schema edits without a migration.
use space_elysiajs_orpc.Prelude.{
  String, Bool, true, false, none, some, List, [], ◌∷◌, ◌++◌, map, any, not, ◌&&◌, if◌then◌else◌,
  concat,
}
use space_elysiajs_orpc.Policy.{Severity}
use space_elysiajs_orpc.Diff.{DiffFile, PullRequestDiff, FileStatus}
use space_elysiajs_orpc.Glob.{matches_any_glob}
use space_elysiajs_orpc.Review.{Finding}
use space_elysiajs_orpc.Detect.{DestructiveStatement, find_destructive_sql}
use space_elysiajs_orpc.Checks.Paths.{for_each}

abbrev pub migration_globs : List String
migration_globs = "packages/db/drizzle/**/*.sql" ∷ []

abbrev pub schema_globs : List String
schema_globs = "packages/db/src/schema/**" ∷ []

abbrev pub is_added : FileStatus → Bool
is_added FileStatus.added = true
is_added _ = false

unfoldable pub destructive_finding : String → DestructiveStatement → Finding
destructive_finding path statement = record {
  severity = Severity.high;
  file = some path;
  line = none;
  description = concat ("Destructive migration statement: " ∷ statement.line ∷ []);
  suggested_action =
      "Confirm the data loss is intended and reversible, and have a human approve this change.";
  source = "check:migrations";
  category = "migration";
}

unfoldable pub destructive_of_file : DiffFile → List Finding
unfolding destructive_finding
destructive_of_file file =
    if matches_any_glob migration_globs file.path
    then map (destructive_finding file.path) (find_destructive_sql file.added_lines)
    else []

unfoldable pub touched_schema : PullRequestDiff → Bool
touched_schema diff = any (λ (file : DiffFile). matches_any_glob schema_globs file.path) diff.files

unfoldable pub added_migration : PullRequestDiff → Bool
added_migration diff =
    any (λ (file : DiffFile). matches_any_glob migration_globs file.path && is_added file.status)
      diff.files

unfoldable pub schema_finding : Finding
schema_finding = record {
  severity = Severity.high;
  file = none;
  line = none;
  description =
      "The Drizzle schema changed but no new migration was added under packages/db/drizzle/.";
  suggested_action = "Run `bun run db:generate` and commit the generated SQL.";
  source = "check:migrations";
  category = "migration";
}

unfoldable pub check_migrations : PullRequestDiff → List Finding
unfolding destructive_of_file touched_schema added_migration schema_finding for_each
check_migrations diff =
    for_each destructive_of_file diff.files
    ++ (if touched_schema diff && not (added_migration diff) then schema_finding ∷ [] else [])
