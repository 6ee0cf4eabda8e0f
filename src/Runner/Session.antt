-- ===== src/Runner/Session.antt =====
-- tooling/local-runner/src/orchestrator.ts, runUnattended and tolerate: the session that takes issues
-- until there is nothing left to do.
pub mod Moves
pub mod Serial
pub mod Failures
use space_elysiajs_orpc.Prelude.{
  ℕ, zero, suc, ◌*◌, ◌+◌, String, Bool, true, false, Option, none, some, List, [], ◌∷◌, ◌++◌, eqb,
  leb, not, is_empty, ◌&&◌, if◌then◌else◌, concat, show,
}
use space_elysiajs_orpc.Policy.{RiskLevel}
use space_elysiajs_orpc.Risk.{RiskAssessment}
use space_elysiajs_orpc.Runner.{RunnerConfig, issue_budget}
use space_elysiajs_orpc.Runner.Advance.{
  AdvanceOutcome, AdvanceAction, merged, closed, retries_exhausted,
}
use space_elysiajs_orpc.Runner.Backoff.{Backoff, Wait, new_backoff, succeeded, failed}
use space_elysiajs_orpc.Runner.Budget.{BudgetExceeded, check}
use space_elysiajs_orpc.Runner.Journal.{RunRecord, in_flight}
use space_elysiajs_orpc.Runner.Machine.{M, Result, ok, thrown, Machine, Services, spend_issue}
use space_elysiajs_orpc.Runner.Once.{
  StopReason, OnceResult, run_once, nothing_ready, max_issues_reached, budget_exceeded,
  github_unavailable, interrupted,
}
use space_elysiajs_orpc.Runner.Summary
use space_elysiajs_orpc.Runner.Summary.{IssueRecord, RecordOutcome, record_issue}
use space_elysiajs_orpc.Runner.Work.{Deps, IssueOutcome, IssueStatus}
use space_elysiajs_orpc.Runner.Work
use space_elysiajs_orpc.Runner.Session.Moves.{Moved, advance_machine}

-- The variables of `runUnattended`, with the machine; `issues` is the summary's list.
pub record Session (W : Type 0) : Type 0 where
  pub machine : Machine W
  pub backoff : Backoff
  pub blocked_this_run : List ℕ
  pub taken : ℕ
  pub issues : List IssueRecord

-- How a pass through the loop's body ends: by `finish`, by `continue`, or at its end.
pub data CycleEnd : Type 0 where
  finishes : StopReason → CycleEnd
  continues : CycleEnd
  completes : CycleEnd

abbrev pub new_session : {W : Type 0} → Machine W → Session W
new_session machine = record {
  machine = machine;
  backoff = new_backoff;
  blocked_this_run = [];
  taken = 0;
  issues = [];
}

-- What a move of an open pull request changes in the session.
abbrev noted_as : AdvanceAction → Option RecordOutcome
noted_as action = elim action [
  | merged ↦ some Summary.merged
  | retries_exhausted ↦ some Summary.blocked
  | closed ↦ some Summary.blocked
  | _ ↦ none
]

abbrev is_given_up : AdvanceAction → Bool
is_given_up action = elim action [ retries_exhausted ↦ true | closed ↦ true | _ ↦ false ]

abbrev is_blocked : IssueStatus → Bool
is_blocked status = elim status [ Work.blocked ↦ true | _ ↦ false ]

abbrev risk_level : Option RiskAssessment → Option RiskLevel
risk_level risk = elim risk [ none ↦ none | some r ↦ some r.risk ]

abbrev hash_title : ℕ → String
hash_title issue = concat ("#" ∷ show issue ∷ [])

abbrev is_nothing_ready : StopReason → Bool
is_nothing_ready reason = elim reason [ nothing_ready ↦ true | _ ↦ false ]

module _ {W : Type 0} where
  note_move : Moved → Session W → Session W
  note_move moved session =
      let outcome = moved.outcome in
      if eqb outcome.issue 0 then session else record session {
        blocked_this_run =
            if is_given_up outcome.action
            then session.blocked_this_run ++ outcome.issue ∷ []
            else session.blocked_this_run;
        issues = elim (noted_as outcome.action) [
          | none ↦ session.issues
          | some noted ↦ record_issue session.issues (record {
            issue = outcome.issue;
            title = hash_title outcome.issue;
            pull_request = outcome.pull_request;
            risk = moved.risk;
            outcome = noted;
          })
        ];
      }

  pub note_moves : List Moved → Session W → Session W
  unfolding note_move
  note_moves [] session = session
  note_moves (moved ∷ rest) session = note_moves rest (note_move moved session)

module _ {W : Type 0} (deps : Deps) (services : Services W) where
  note_taken : IssueOutcome → Session W → Session W
  note_taken outcome session = record session {
    machine = (spend_issue services session.machine).1;
    taken = suc session.taken;
    issues = record_issue session.issues (record {
      issue = outcome.issue;
      title = hash_title outcome.issue;
      pull_request = outcome.pull_request;
      risk = risk_level outcome.risk;
      outcome = if is_blocked outcome.status then Summary.blocked else Summary.open_run;
    });
    blocked_this_run =
        if is_blocked outcome.status
        then session.blocked_this_run ++ outcome.issue ∷ []
        else session.blocked_this_run;
  }

  note_all : List IssueOutcome → Session W → Session W
  unfolding note_taken
  note_all [] session = session
  note_all (outcome ∷ rest) session = note_all rest (note_taken outcome session)

  -- `tolerate`: wait, or stop.
  wait_or_stop : Option Wait → Session W → CycleEnd × Session W
  wait_or_stop none session = (finishes github_unavailable, session)
  wait_or_stop (some wait) session = (
    continues,
    record session {
      machine = record session.machine {
        world = services.sleep wait.wait_ms session.machine.world;
      };
    },
  )

  pub tolerate : Session W → CycleEnd × Session W
  unfolding wait_or_stop
  tolerate session =
      let (wait, backoff) = failed deps.config session.backoff in
      wait_or_stop wait (record session { backoff = backoff })

  abbrev complete : Session W → CycleEnd × Session W
  complete session = (completes, record session { backoff = succeeded session.backoff })

  -- The end of the body, by what `runOnce` came to.
  after_once : Result OnceResult → Session W → CycleEnd × Session W
  unfolding tolerate note_all
  after_once (thrown message) session = tolerate session
  after_once (ok result) session =
      let noted = note_all result.outcomes session in
      if is_nothing_ready result.stop_reason && is_empty result.outcomes
      then (finishes nothing_ready, noted)
      else complete noted

  within_budget :
      (List ℕ → M (Machine W) OnceResult) → Option BudgetExceeded → Session W → CycleEnd × Session W
  unfolding after_once
  within_budget once (some exceeded) session = (finishes budget_exceeded, session)
  within_budget once none session =
      let (result, machine) = once session.blocked_this_run session.machine in
      after_once result (record session { machine = machine })

  -- The part that takes new work, by the runs in flight.
  take_work :
      (List ℕ → M (Machine W) OnceResult) → List RunRecord → Session W → CycleEnd × Session W
  unfolding within_budget
  take_work once (_ ∷ _) session = complete session
  take_work once [] session =
      let limit = issue_budget deps.config in
      let (exceeded, budget) =
        check deps.config (services.readings session.machine.world) session.machine.budget in
      if not (eqb limit 0) && leb limit session.taken
      then (finishes max_issues_reached, session)
      else within_budget once exceeded
          (record session { machine = record session.machine { budget = budget } })

  after_moves :
      (List ℕ → M (Machine W) OnceResult) → Result (List Moved) → Session W → CycleEnd × Session W
  unfolding tolerate note_moves take_work
  after_moves once (thrown message) session = tolerate session
  after_moves once (ok moves) session =
      let noted = note_moves moves session in take_work once (in_flight noted.machine.journal) noted

  -- The body of the loop, with `runOnce` given.
  pub cycle_with : (List ℕ → M (Machine W) OnceResult) → Session W → CycleEnd × Session W
  unfolding after_moves
  cycle_with once session =
      let (moves, machine) = advance_machine deps services session.machine in
      after_moves once moves (record session { machine = machine })

  unfoldable pub cycle : Session W → CycleEnd × Session W
  unfolding cycle_with
  cycle session = cycle_with (run_once deps services) session

  -- `await sleep(deps.config.LOOP_POLL_INTERVAL_SECONDS * 1000)`
  abbrev pub poll : Session W → Session W
  poll session = record session {
    machine = record session.machine {
      world = services.sleep (deps.config.poll_interval_seconds * 1000) session.machine.world;
    };
  }

  -- How the loop goes on after its body; the session stops where `some` reason is given.
  abbrev pub turn_end : CycleEnd → Session W → Option StopReason × Session W
  turn_end (finishes reason) session = (some reason, session)
  turn_end continues session = (none, session)
  turn_end completes session =
      if services.stopping session.machine.world
      then (some interrupted, session)
      else (none, poll session)

  -- One turn of the loop, its condition first.
  unfoldable pub turn : Session W → Option StopReason × Session W
  turn session =
      if services.stopping session.machine.world
      then (some interrupted, session)
      else let (end, after) = cycle session in turn_end end after

  -- The session, for at most so many turns; `none` where it would go on.
  unfoldable pub run_unattended : ℕ → Session W → Option StopReason × Session W
  run_unattended zero session = (none, session)
  run_unattended (suc turns) session =
      let (stop, after) = turn session in
      elim stop [ some reason ↦ (some reason, after) | none ↦ run_unattended turns after ]
