-- ===== src/Runner/Github.antt =====
-- tooling/local-runner/src/github.ts: what the runner reads off GitHub's answers. `toUpperCase` and
-- `toLowerCase` are parameters.
use space_elysiajs_orpc.Prelude.{
  ℕ, String, Bool, true, false, Option, none, some, List, [], ◌∷◌, ◌||◌, ◌&&◌, ◌==◌, not, includes,
  if◌then◌else◌, is_empty,
}
use space_elysiajs_orpc.Eligibility.{IssueSummary, open_issue, closed_issue}
use space_elysiajs_orpc.Runner.Advance.{
  Mergeability, clean, behind, conflicted, held, unknown, ChecksVerdict, pending, passing, failing,
  none_reported, PullRequestState, open_state, merged_state, closed_state,
}

pub record GhCheck : Type 0 where
  pub name : Option String
  pub context : Option String
  pub status : Option String
  pub conclusion : Option String
  pub state : Option String

pub record GhPullRequest : Type 0 where
  pub number : ℕ
  pub state : String
  pub merge_state_status : Option String
  pub status_check_rollup : Option (List GhCheck)

pub record GhIssue : Type 0 where
  pub number : ℕ
  pub title : String
  pub state : String
  pub labels : List String
  pub body : Option String

-- `a ?? b`
abbrev or_given : Option String → Option String → Option String
or_given none b = b
or_given (some a) b = some a

abbrev or_text : Option String → String → String
or_text none b = b
or_text (some a) b = a

pub record ChecksSummary : Type 0 where
  pub verdict : ChecksVerdict
  pub failing_checks : List String

-- How one check counts.
pub data CheckCounts : Type 0 where
  as_pending as_good : CheckCounts
  as_failing : String → CheckCounts

-- The variables of the loop.
pub record Tally : Type 0 where
  pub failing_checks : List String
  pub waiting : Bool

count_check : CheckCounts → Tally → Tally
count_check as_pending later = record later { waiting = true }
count_check as_good later = later
count_check (as_failing name) later = record later { failing_checks = name ∷ later.failing_checks }

module _ (upper lower : String → String) where
  pub check_counts : GhCheck → CheckCounts
  check_counts check =
      let name = or_text (or_given check.name check.context) "unnamed check" in
      let conclusion = upper (or_text (or_given check.conclusion check.state) "") in
      let status = upper (or_text check.status "") in
      if not (status == "") && not (status == "COMPLETED")
      then as_pending
      else if conclusion == "PENDING" || (conclusion == "EXPECTED" || conclusion == "")
      then as_pending
      else if includes conclusion ("SUCCESS" ∷ "NEUTRAL" ∷ "SKIPPED" ∷ [])
      then as_good
      else as_failing name

  pub tally : List GhCheck → Tally
  unfolding count_check check_counts
  tally [] = record { failing_checks = []; waiting = false }
  tally (check ∷ checks) = count_check (check_counts check) (tally checks)

  verdict_of : List GhCheck → ChecksSummary
  unfolding tally
  verdict_of [] = record { verdict = none_reported; failing_checks = [] }
  verdict_of (check ∷ checks) =
      let t = tally (check ∷ checks) in
      if not (is_empty t.failing_checks)
      then record { verdict = failing; failing_checks = t.failing_checks }
      else record { verdict = if t.waiting then pending else passing; failing_checks = [] }

  unfoldable pub summarise_checks : GhPullRequest → ChecksSummary
  unfolding verdict_of
  summarise_checks pull_request = elim pull_request.status_check_rollup [
    | none ↦ verdict_of []
    | some checks ↦ verdict_of checks
  ]

  unfoldable pub mergeability_of : GhPullRequest → Mergeability
  mergeability_of pull_request =
      let status = upper (or_text pull_request.merge_state_status "") in
      if status == "DIRTY"
      then conflicted
      else if status == "BEHIND"
      then behind
      else if status == "CLEAN" || (status == "HAS_HOOKS" || status == "UNSTABLE")
      then clean
      else if status == "BLOCKED"
      then held
      else unknown

  -- `pullRequest.state.toUpperCase()`, as it is compared.
  unfoldable pub state_of : GhPullRequest → PullRequestState
  state_of pull_request =
      let state = upper pull_request.state in
      if state == "MERGED"
      then merged_state
      else if state == "CLOSED"
      then closed_state
      else open_state

  -- `existing.state.toUpperCase() === 'OPEN'`
  abbrev pub says_open : GhPullRequest → Bool
  says_open pull_request = upper pull_request.state == "OPEN"

  -- `toSummary` of orchestrator.ts.
  unfoldable pub to_summary : GhIssue → IssueSummary
  to_summary issue = record {
    number = issue.number;
    title = issue.title;
    state = if lower issue.state == "closed" then closed_issue else open_issue;
    labels = issue.labels;
    body = issue.body;
  }
