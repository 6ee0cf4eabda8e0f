-- ===== src/Checks/DependencyEdits.antt =====
-- tooling/loop/src/checks/dependencies.ts: new dependencies and major upgrades.
use space_elysiajs_orpc.Prelude.{
  String, Bool, true, false, Option, none, some, List, [], ◌∷◌, ◌++◌, ◌&&◌, if◌then◌else◌, concat,
}
use space_elysiajs_orpc.Policy.{Severity}
use space_elysiajs_orpc.Diff.{DiffFile, PullRequestDiff}
use space_elysiajs_orpc.Review.{Finding}
use space_elysiajs_orpc.Detect.Changes.{ChangeKind, DependencyChange, dependency_changes}
use space_elysiajs_orpc.Checks.Paths.{for_each}

abbrev pub is_addition : ChangeKind → Bool
is_addition ChangeKind.added = true
is_addition _ = false

abbrev pub is_upgrade : ChangeKind → Bool
is_upgrade ChangeKind.upgraded = true
is_upgrade _ = false

-- A version in a template literal.
abbrev shown : Option String → String
shown none = "null"
shown (some version) = version

unfoldable pub addition_finding : String → DependencyChange → Finding
addition_finding path change = record {
  severity = Severity.medium;
  file = some path;
  line = none;
  description =
      concat (
        "New dependency `" ∷ change.name ∷ "@" ∷ shown change.to ∷ "` added in " ∷ path ∷ "." ∷ []);
  suggested_action =
      "State the concrete reason for the dependency in the pull request, per AGENTS.md section 5.";
  source = "check:dependencies";
  category = "dependencies";
}

unfoldable pub upgrade_finding : String → DependencyChange → Finding
upgrade_finding path change = record {
  severity = Severity.high;
  file = some path;
  line = none;
  description = concat (
      "Major upgrade of `"
      ∷ change.name
      ∷ "`: "
      ∷ shown change.from
      ∷ " to "
      ∷ shown change.to
      ∷ "."
      ∷ []);
  suggested_action =
      "Major upgrades need a human. Confirm the changelog and that the full verification suite passes.";
  source = "check:dependencies";
  category = "dependencies";
}

unfoldable pub findings_of_change : String → DependencyChange → List Finding
unfolding addition_finding upgrade_finding
findings_of_change path change =
    (if is_addition change.kind then addition_finding path change ∷ [] else [])
    ++ (if change.major && is_upgrade change.kind then upgrade_finding path change ∷ [] else [])

-- `a.localeCompare(b) <= 0` is the parameter.
unfoldable pub check_dependencies : (String → String → Bool) → PullRequestDiff → List Finding
unfolding findings_of_change for_each
check_dependencies locale_le diff =
    for_each
      (λ (file : DiffFile).
        for_each (findings_of_change file.path) (dependency_changes locale_le file))
      diff.files
