-- ===== src/Checks.antt =====
-- tooling/loop/src/checks/index.ts: every deterministic check, in one pass over the diff.
pub mod Paths
pub mod Secrets
pub mod ClientSafety
pub mod Migrations
pub mod DependencyEdits
pub mod DebugArtifacts
pub mod Coverage
pub mod Integrity
pub mod Blocking
use space_elysiajs_orpc.Prelude.{String, Bool, List, ◌++◌}
use space_elysiajs_orpc.Diff.{PullRequestDiff}
use space_elysiajs_orpc.Review.{Finding}
use Secrets.{check_secrets}
use ClientSafety.{check_client_safety}
use Migrations.{check_migrations}
use DependencyEdits.{check_dependencies}
use DebugArtifacts.{check_debug_artifacts}
use Coverage.{check_test_coverage}
use Integrity.{check_test_integrity}

-- `a.localeCompare(b) <= 0` is the parameter.
unfoldable pub run_deterministic_checks : (String → String → Bool) → PullRequestDiff → List Finding
run_deterministic_checks locale_le diff =
    check_secrets diff
    ++ (check_client_safety diff
        ++ (check_migrations diff
            ++ (check_dependencies locale_le diff
                ++ (check_debug_artifacts diff
                    ++ (check_test_coverage diff ++ check_test_integrity diff)))))
