-- ===== src/Tests/Runners.antt =====
-- Witnesses and tests for the local runner.
use space_elysiajs_orpc.Prelude.{
  ltb, if◌then◌else◌, inl, inl, ℕ, suc, ◌≤◌, ◌⊎◌, ◌≢◌, String, Bool, true, false, Option, none,
  some, List, [], ◌∷◌, ◌≡◌, refl, arith, includes, if◌then◌else◌, ltb,
}
use space_elysiajs_orpc.Prelude.Assoc.{get, set}
use space_elysiajs_orpc.Regexp.{replace, group_of}
use space_elysiajs_orpc.Runner.{RunnerConfig}
use space_elysiajs_orpc.Runner.Budget.{
  Readings, check, exceeded, new_budget, record_issue, day, within,
}
use space_elysiajs_orpc.Runner.Budget.Limits.{
  check-after, Event, claimed, invoked, checked, after, kept,
}
use space_elysiajs_orpc.Runner.Budget.Sessions
use space_elysiajs_orpc.Runner.Budget.Sessions.{issues_limited, Session}
use space_elysiajs_orpc.Runner.Backoff.{failed, new_backoff}
use space_elysiajs_orpc.Runner.Backoff.Delays.{failed_after, after_steps, trailing_failures, delay}
use space_elysiajs_orpc.Runner.Environment.{
  claude, github, git, filtered_environment, env_profile, claude_variables, github_variables,
  git_variables,
}
use space_elysiajs_orpc.Runner.Environment.Separation.{
  filtered_environment_exact, credentials_separated, first_of,
}
use space_elysiajs_orpc.Runner.Redact.{redact}
use space_elysiajs_orpc.Runner.Journal.{
  RunRecord, RunStatus, Journal, in_progress, in_flight, upsert_run,
}
use space_elysiajs_orpc.Runner.Advance.{Remote, Mergeability, open_state, failing, advance}
use space_elysiajs_orpc.Runner.Lock.{
  Machine, Phase, holding, looked, idle, Reached, at_first, starts, looks, writes, refusal_of,
  lock_of, options_of, with_phase,
}
use space_elysiajs_orpc.Runner.Lock
use space_elysiajs_orpc.Runner.Lock.Exclusion.{held_once, two_hold, NoneLooking}
use space_elysiajs_orpc.Runner.Verify.{
  Exit, exited, Verified, VerifyOptions, tier_steps, verify, verification_steps,
}
use space_elysiajs_orpc.Runner.Verify.Outcomes.{verify_exact, Answers}

abbrev pub config : RunnerConfig
config = record {
  unattended = true;
  max_issues = none;
  max_model_invocations_per_hour = 60;
  max_issues_per_day = 2;
  max_runtime_hours = 12;
  coding_fix_rounds = 3;
  ci_fix_rounds = 3;
  reviewer_retry_rounds = 2;
  conflict_rounds = 2;
  poll_interval_seconds = 60;
  max_consecutive_failures = 8;
  backoff_base_seconds = 30;
  backoff_max_seconds = 900;
}

abbrev pub at : ℕ → Readings
at t = record { prune_day = t; prune_hour = t; at_invocations = t; at_issues = t; at_runtime = t }

abbrev events : List Event
events = claimed 10 ∷ invoked 20 ∷ checked (at 30) ∷ claimed 40 ∷ []

check-after_example :
    (check config (at 50) (after config events (new_budget 0))).0
    ≡ exceeded config (at 50) (kept events (new_budget 0))
check-after_example =
    check-after config 0 events (at 50) (tt, (tt, ((omega arith, omega arith), (tt, tt))))
      (omega arith) (omega arith)

none_exceeded : (check config (at 10) (new_budget 0)).0 ≡ none
unfolding check new_budget
none_exceeded = refl

first-Session :
    Session config 20 (record_issue 20 (check config (at 10) (new_budget 0)).1) (20 ∷ [])
first-Session =
    Sessions.taken (at 10) 20 0 (new_budget 0) [] (Sessions.started 0) none_exceeded (omega arith)
      (omega arith) (omega arith)

issues_limited_example : within 30 day (20 ∷ []) ≤ 2
issues_limited_example =
    issues_limited config 20 _ (20 ∷ []) first-Session (omega arith) 30 (omega arith)

abbrev session : List Bool
session = false ∷ true ∷ false ∷ false ∷ []

failed_after_example : (failed config (after_steps config session new_backoff)).0 ≡ (
    if ltb (trailing_failures 0 session) 8
    then some (record {
      wait_ms = delay config (trailing_failures 0 session);
      consecutive = suc (trailing_failures 0 session);
    })
    else none)
failed_after_example = failed_after config session

abbrev variables : String → Option String
variables name = some "v"

filtered_environment_exact_test :
    get (filtered_environment variables (("CI", "1") ∷ []) git) "GH_TOKEN"
    ≡ first_of
        (get (("CI", "1") ∷ []) "GH_TOKEN")
        (if includes "GH_TOKEN" (env_profile git) then some "v" else none)
filtered_environment_exact_test =
    filtered_environment_exact variables (("CI", "1") ∷ []) git "GH_TOKEN" (refl, tt)

claude_sees_its_key : get (filtered_environment variables [] claude) "ANTHROPIC_API_KEY" ≡ some "v"
unfolding filtered_environment get set
claude_sees_its_key = refl

credentials_separated_example :
    (includes "ANTHROPIC_API_KEY" claude_variables ≡ true → claude ≡ claude)
    × (includes "ANTHROPIC_API_KEY" github_variables ≡ true → claude ≡ github)
    × (includes "ANTHROPIC_API_KEY" git_variables ≡ true → (claude ≡ git) ⊎ (claude ≡ github))
credentials_separated_example =
    credentials_separated variables claude "ANTHROPIC_API_KEY" "v" claude_sees_its_key

redact_test :
    redact "use ghp_abcdefghij0123456789Z and DB_PASSWORD=x y at postgres://u:pw@h/db"
    ≡ "use [redacted:github-token] and DB_PASSWORD=[redacted] y at postgres://u:[redacted]@h/db"
unfolding redact group_of replace
redact_test = refl

abbrev first : ℕ
first = 1

abbrev second : ℕ
second = 2

first-ne-second : first ≢ second
first-ne-second e = omega arith

two_hold_example :
    (m : Machine) × Reached "laptop" (λ _. Unit) m
    × (m.phase first ≡ holding)
    × (m.phase second ≡ holding)
two_hold_example = two_hold "laptop" first second first-ne-second

-- A process of its own that starts, looks and writes.
abbrev written : Machine
written = record {
  file = some (lock_of (options_of "laptop" first) "t" "loop");
  phase =
      with_phase (with_phase (with_phase (λ _. Phase.dead) first idle) first looked) first holding;
}

no_one_looks : NoneLooking (record { file = none; phase = with_phase (λ _. Phase.dead) first idle })
no_one_looks q e = ground arith

first_holds : Reached "laptop" NoneLooking written
unfolding refusal_of
first_holds =
    let start : Reached "laptop" NoneLooking (record { file = none; phase = λ _. Phase.dead }) =
      at_first none in
    let up = Lock.after _ _ start (starts _ first refl) in
    let seen = Lock.after _ _ up (looks _ first refl no_one_looks refl) in
    Lock.after _ _ seen (writes _ first "t" "loop" refl)

held_once_example : first ≡ first
held_once_example = held_once "laptop" written first first first_holds refl refl

abbrev answer : Unit {0} → String → List String → ℕ → Exit × Unit {0}
answer w command args timeout =
    (exited (record { code = 0; stdout = ""; stderr = ""; timed_out = false; duration_ms = 5 }), w)

abbrev nowhere : String → Option String
nowhere command = none

abbrev plain : VerifyOptions
plain = record { risk = none; policy = none; changed_files = none; only = none }

fallback_steps : tier_steps 3 plain ≡ some verification_steps
unfolding tier_steps
fallback_steps = refl

verify_exact_example :
    (r : Verified) × (v : Unit {0}) × (verify answer nowhere 3 plain tt ≡ some (r, v))
    × Answers answer nowhere plain verification_steps tt r
verify_exact_example = verify_exact answer nowhere 3 plain verification_steps tt fallback_steps

abbrev pub run_of : Option ℕ → RunRecord
run_of pull_request = record {
  issue = 7;
  branch = "agent/issue-7-x";
  worktree = "w";
  started_at = "t";
  updated_at = "t";
  status = in_progress;
  fix_rounds = 1;
  ci_rounds = 1;
  conflict_rounds = 0;
  pull_request = pull_request;
  risk = none;
  attempts = [];
}

abbrev journal : Option ℕ → Journal
journal pull_request = record { runs = run_of pull_request ∷ [] }

abbrev red : ℕ → Remote
red number = record {
  state = open_state;
  mergeability = Mergeability.clean;
  updates = true;
  verdict = failing;
  failing_checks = "ci" ∷ [];
}

-- The second failing round is counted, and the third ends the run.
failing_test :
    ((advance config red (journal (some 9))).1
      ≡ record { runs = record (run_of (some 9)) { ci_rounds = 2 } ∷ [] })
    × ((advance config red (record { runs = record (run_of (some 9)) { ci_rounds = 2 } ∷ [] })).1
        ≡ record {
          runs = record (run_of (some 9)) { ci_rounds = 2; status = RunStatus.blocked } ∷ [];
        })
unfolding advance in_flight upsert_run
failing_test = (refl, refl)
