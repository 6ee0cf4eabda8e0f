-- ===== src/Checks/ClientSafety.antt =====
-- tooling/loop/src/checks/client-safety.ts: server-only imports in a package that ships to clients.
use space_elysiajs_orpc.Prelude.{
  String, Bool, Option, none, some, List, [], ◌∷◌, any, if◌then◌else◌, concat,
}
use space_elysiajs_orpc.Policy.{Severity}
use space_elysiajs_orpc.Diff.{DiffFile, PullRequestDiff}
use space_elysiajs_orpc.Glob.{matches_any_glob}
use space_elysiajs_orpc.Review.{Finding}
use space_elysiajs_orpc.Regexp.{
  Re, start, end, word_boundary, group, alt, star, test, exec, group_of,
}
use space_elysiajs_orpc.Regexp.Classes.{space, in_set, not_in_set, literal, plus, all_of, any_of}
use space_elysiajs_orpc.Checks.Paths.{for_each}

-- `CLIENT_SAFE_GLOBS`
abbrev pub client_safe_globs : List String
client_safe_globs =
    "packages/api-contract/src/**" ∷ "packages/api-client/src/**" ∷ "packages/ui/src/**" ∷ []

abbrev begins : String → Re
begins text = all_of (start ∷ literal text ∷ [])

abbrev exactly : Re → Re
exactly r = all_of (start ∷ r ∷ end ∷ [])

-- `FORBIDDEN_SPECIFIERS`
abbrev forbidden_specifiers : List Re
forbidden_specifiers =
    begins "node:"
    ∷ begins "bun:"
    ∷ exactly (literal "bun")
    ∷ begins "drizzle-orm"
    ∷ exactly (literal "postgres")
    ∷ exactly (literal "ioredis")
    ∷ exactly (literal "bullmq")
    ∷ begins "pino"
    ∷ begins "elysia"
    ∷ exactly (literal "jose")
    ∷ begins "@orpc/server"
    ∷ exactly (
        all_of (
          literal "@newsdeck/"
          ∷ any_of (literal "db")
              (literal "auth" ∷ literal "logger" ∷ literal "jobs" ∷ literal "loop" ∷ [])
          ∷ []))
    ∷ []

-- `/(?:^|\s)(?:import|export)\b[^'"]*from\s+['"]([^'"]+)['"]/`
abbrev import_line : Re
import_line = all_of (
    alt start space
    ∷ alt (literal "import") (literal "export")
    ∷ word_boundary
    ∷ star (not_in_set "'\"")
    ∷ literal "from"
    ∷ plus space
    ∷ in_set "'\""
    ∷ group 1 (plus (not_in_set "'\""))
    ∷ in_set "'\""
    ∷ [])

unfoldable pub is_forbidden : String → Bool
is_forbidden specifier = any (λ pattern'. test pattern' specifier) forbidden_specifiers

-- The specifier of a line that imports what a client must not.
unfoldable pub forbidden_import : String → Option String
unfolding is_forbidden
forbidden_import line = elim (group_of 1 (exec import_line line)) [
  | none ↦ none
  | some specifier ↦ if is_forbidden specifier then some specifier else none
]

unfoldable pub import_finding : String → String → Finding
import_finding path specifier = record {
  severity = Severity.high;
  file = some path;
  line = none;
  description = concat (
      path ∷ " imports `" ∷ specifier ∷ "`, which is server-only, into a client-safe package."
      ∷ []);
  suggested_action =
      "Remove the import. Relaxing the client-safe boundary is an architectural decision, not an implementation detail — see AGENTS.md section 4.";
  source = "check:client-safety";
  category = "architecture";
}

unfoldable pub report_import : String → Option String → List Finding
unfolding import_finding
report_import path none = []
report_import path (some specifier) = import_finding path specifier ∷ []

unfoldable pub imports_of_file : DiffFile → List Finding
unfolding report_import forbidden_import for_each
imports_of_file file =
    if matches_any_glob client_safe_globs file.path
    then for_each (λ line. report_import file.path (forbidden_import line)) file.added_lines
    else []

unfoldable pub check_client_safety : PullRequestDiff → List Finding
unfolding imports_of_file for_each
check_client_safety diff = for_each imports_of_file diff.files
