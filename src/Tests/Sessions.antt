-- ===== src/Tests/Sessions.antt =====
-- Witnesses and tests for the orchestrator. The world is a number that no call changes.
use space_elysiajs_orpc.Prelude.{
  if◌then◌else◌, eqb, ℕ, ◌+◌, ◌-◌, ◌≤◌, true, false, none, some, [], ◌∷◌, ◌≡◌, refl, arith,
}
use space_elysiajs_orpc.Tests.{policy, same, in_order, no_signal}
use space_elysiajs_orpc.Tests.Runners.{config, at, run_of}
use space_elysiajs_orpc.Eligibility.{default_selection_policy, IssueSummary, open_issue}
use space_elysiajs_orpc.Runner.Budget.{new_budget, check, exceeded, prune, drop_aged, within}
use space_elysiajs_orpc.Runner.{issue_budget}
use space_elysiajs_orpc.Runner.Backoff.{failed}
use space_elysiajs_orpc.Runner.Once.{github_unavailable, run_once, take_next}
use space_elysiajs_orpc.Runner.Session.{
  finishes, Session, new_session, run_unattended, cycle, cycle_with, continues,
}
use space_elysiajs_orpc.Runner.Session.Moves.{advance_machine}
use space_elysiajs_orpc.Runner.Session.Serial.{
  IsOrderly, run_unattended-IsOrderly, cycle-eq-take_next,
}
use space_elysiajs_orpc.Runner.Session.Failures.{Throws, Failing-limited, again, not_yet}
use space_elysiajs_orpc.Runner.Github.{GhIssue, GhPullRequest}
use space_elysiajs_orpc.Runner.Journal.{Journal, empty_journal, in_flight, find_run, upsert_run}
use space_elysiajs_orpc.Runner.Journal.Lookup.{find_run-upsert_run}
use space_elysiajs_orpc.Runner.Machine.{
  Call, Answer, Result, ok, thrown, Services, Machine, list_issues, view_issue, add_labels,
  remove_label, comment, view_pull_request, pull_request_for_branch, create_pull_request,
  enable_auto_merge, call, read_journal, update_branch, git, install, implement, review,
  read_policy, implemented, reviewed,
}
use space_elysiajs_orpc.Runner.Verify.{exited, RunResult}
use space_elysiajs_orpc.Runner.Work.{Deps, IssueOutcome}
use space_elysiajs_orpc.Runner.Work
use space_elysiajs_orpc.Policy.{RiskLevel}
use space_elysiajs_orpc.Risk.{policy_default}
use space_elysiajs_orpc.Review.{ReviewStatus}
use space_elysiajs_orpc.Regexp.{exec}
use space_elysiajs_orpc.Runner.Work.Issue.{from_the_start, work_issue}
use space_elysiajs_orpc.Runner.Work.Issue.Safety.{work_issue-asked, asked}

abbrev done_well : RunResult
done_well = record { code = 0; stdout = "3"; stderr = ""; timed_out = false; duration_ms = 1 }

abbrev issue_7 : GhIssue
issue_7 = record {
  number = 7;
  title = "Fix the feed";
  state = "open";
  labels = "agent:ready" ∷ [];
  body = some "Dependencies: none";
}

abbrev pull_9 : GhPullRequest
pull_9 = record {
  number = 9;
  state = "MERGED";
  merge_state_status = none;
  status_check_rollup = none;
}

-- Everything succeeds, and every review approves.
abbrev answer_well : (c : Call) → Answer c
answer_well list_issues = issue_7 ∷ []
answer_well (view_issue _) = issue_7
answer_well (add_labels _ _) = tt
answer_well (remove_label _ _) = tt
answer_well (comment _ _) = tt
answer_well (view_pull_request _) = pull_9
answer_well (pull_request_for_branch _) = none
answer_well (create_pull_request _ _ _ _) = 9
answer_well (enable_auto_merge _) = tt
answer_well (update_branch _) = tt
answer_well (git _ _) = done_well
answer_well (install _) = done_well
answer_well (implement _) = implemented "done"
answer_well (review _ _) =
    reviewed (record { status = ReviewStatus.approve; findings = []; summary = "fine" })
answer_well (read_policy _) = none

abbrev services : Services ℕ
services = record {
  answer = λ c w. (ok (answer_well c), w);
  exec = λ cwd w command args timeout. (exited done_well, w);
  which = λ tool. none;
  now = λ w. w;
  iso = λ n. "now";
  readings = at;
  stopping = λ w. false;
  sleep = λ ms w. w;
}

abbrev deps : Deps
deps = record {
  config = config;
  policy = policy;
  repository = "/repo";
  remote = "origin";
  default_branch = "main";
  reviewers = 1;
  selection_policy = default_selection_policy;
  resolve = λ name. name;
  same_policy = λ a b. true;
  fold = same;
  upper = same;
  lower = same;
  locale_le = in_order;
  signals = no_signal;
  depth = 3;
}

abbrev machine : Machine ℕ
machine = record { world = 5; journal = empty_journal; budget = new_budget 0; calls = [] }

abbrev summary_7 : IssueSummary
summary_7 = record {
  number = 7;
  title = "Fix the feed";
  state = open_issue;
  labels = "agent:ready" ∷ [];
  body = none;
}

work_issue-asked_example :
    asked (work_issue deps services summary_7 from_the_start machine).1.calls ≤ 3 - 0 + 0
work_issue-asked_example = work_issue-asked deps services summary_7 from_the_start machine

abbrev machine_after : Machine ℕ
machine_after = (work_issue deps services summary_7 from_the_start machine).1

abbrev outcome_7 : IssueOutcome
outcome_7 = record {
  issue = 7;
  branch = "agent/issue-7-ix-the-feed";
  status = Work.opened;
  pull_request = some 9;
  risk = some (record {
    risk = RiskLevel.low;
    reasons = record { risk = RiskLevel.low; detail = policy_default } ∷ [];
    affected = false;
    policy_bearing = false;
    control_reasons = [];
  });
  failure = none;
}

abbrev journal_7 : Journal
journal_7 = record { runs = run_of (some 9) ∷ [] }

find_run-upsert_run_example : find_run (upsert_run journal_7 (run_of none)) 8 ≡ find_run journal_7 8
find_run-upsert_run_example = find_run-upsert_run journal_7 (run_of none) 8 (omega arith)

abbrev session : Session ℕ
session = new_session machine

session-IsOrderly : IsOrderly deps session
unfolding in_flight
session-IsOrderly = record { one_in_flight = omega arith }

run_unattended-IsOrderly_example : IsOrderly deps (run_unattended deps services 4 session).1
run_unattended-IsOrderly_example =
    run_unattended-IsOrderly deps services 4 session session-IsOrderly

cycle-eq-take_next_example :
    cycle deps services session ≡ cycle_with deps services (take_next deps services) session
cycle-eq-take_next_example = cycle-eq-take_next deps services session

-- GitHub does not list the issues.
abbrev answer_badly : (c : Call) → Result (Answer c)
answer_badly list_issues = thrown "HTTP 502"
answer_badly (view_issue _) = thrown "HTTP 502"
answer_badly (add_labels _ _) = thrown "HTTP 502"
answer_badly (remove_label _ _) = thrown "HTTP 502"
answer_badly (comment _ _) = thrown "HTTP 502"
answer_badly (view_pull_request _) = thrown "HTTP 502"
answer_badly (pull_request_for_branch _) = thrown "HTTP 502"
answer_badly (create_pull_request _ _ _ _) = thrown "HTTP 502"
answer_badly (enable_auto_merge _) = thrown "HTTP 502"
answer_badly (update_branch _) = thrown "HTTP 502"
answer_badly (git _ _) = thrown "HTTP 502"
answer_badly (install _) = thrown "HTTP 502"
answer_badly (implement _) = thrown "HTTP 502"
answer_badly (review _ _) = thrown "HTTP 502"
answer_badly (read_policy _) = thrown "HTTP 502"

abbrev broken : Services ℕ
broken = record services { answer = λ c w. (answer_badly c, w) }

first_failure : (cycle deps broken session).0 ≡ continues
unfolding cycle advance_machine read_journal in_flight issue_budget check exceeded prune drop_aged
    within new_budget run_once take_next call failed
first_failure = refl

Failing-limited_example :
    (0 + 1 ≤ 8)
    × (Throws deps broken (cycle deps broken session).1
        → (cycle deps broken (cycle deps broken session).1).0
          ≡ (if eqb (0 + 1) 8 then finishes github_unavailable else continues))
Failing-limited_example =
    Failing-limited deps broken 1 session (cycle deps broken session).1
      (again 0 session session (not_yet session) first_failure) (omega arith)
