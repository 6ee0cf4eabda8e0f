-- ===== src/Runner/Summary.antt =====
-- tooling/local-runner/src/summary.ts: what an unattended session did. `detail` and the times of the
-- session are left out, and so is the rendered summary.
use space_elysiajs_orpc.Prelude.{
  ℕ, String, Bool, Option, List, [], ◌∷◌, ◌++◌, eqb, leb, not, filter,
}
use space_elysiajs_orpc.Prelude.Sorting.{sort}
use space_elysiajs_orpc.Policy.{RiskLevel}

pub data RecordOutcome : Type 0 where
  merged open_run blocked skipped : RecordOutcome

pub record IssueRecord : Type 0 where
  pub issue : ℕ
  pub title : String
  pub pull_request : Option ℕ
  pub risk : Option RiskLevel
  pub outcome : RecordOutcome

abbrev pub by_issue : IssueRecord → IssueRecord → Bool
by_issue a b = leb a.issue b.issue

-- `recordIssue`, on the list of issues.
unfoldable pub record_issue : List IssueRecord → IssueRecord → List IssueRecord
record_issue issues entry =
    sort by_issue (
      filter (λ (existing : IssueRecord). not (eqb existing.issue entry.issue)) issues
      ++ entry ∷ [])
