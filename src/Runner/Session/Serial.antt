-- ===== src/Runner/Session/Serial.antt =====
-- A session works on one issue at a time, and never resumes a run.
use space_elysiajs_orpc.Prelude.{
  ℕ, zero, suc, ◌≤◌, Option, none, some, List, [], ◌∷◌, ◌≡◌, refl, arith, length, eqb, leb, not,
  ◌&&◌, Bool-cases, Option-cases, inl, inr, is_empty,
}
use space_elysiajs_orpc.Runner.{issue_budget}
use space_elysiajs_orpc.Runner.Budget.{BudgetExceeded, check}
use space_elysiajs_orpc.Runner.Journal.{RunRecord, in_flight}
use space_elysiajs_orpc.Runner.Machine.{Result, ok, thrown, Services, spend_issue}
use space_elysiajs_orpc.Runner.Backoff.{Wait, failed}
use space_elysiajs_orpc.Runner.Machine.Laws.{Given}
use space_elysiajs_orpc.Runner.Once.{OnceResult, run_once, take_next}
use space_elysiajs_orpc.Runner.Once.Outcomes.{
  run_once-eq-take_next, take_next-HoldsOne, take_next-Single,
}
use space_elysiajs_orpc.Runner.Work.{Deps, IssueOutcome}
use space_elysiajs_orpc.Runner.Session.{
  Session, CycleEnd, finishes, continues, completes, cycle, cycle_with, after_moves, take_work,
  within_budget, after_once, tolerate, note_moves, note_move, note_all, note_taken, wait_or_stop,
  is_nothing_ready, turn_end, turn, run_unattended,
}
use space_elysiajs_orpc.Runner.Session.Moves.Alone.{advance_machine-AtMostOne}
use space_elysiajs_orpc.Runner.Session.Moves.{Moved}

module _ {W : Type 0} (deps : Deps) (services : Services W) where
  within_budget-eq :
      (exceeded : Option BudgetExceeded) (session : Session W)
      → in_flight session.machine.journal ≡ []
      → within_budget deps services (run_once deps services) exceeded session
        ≡ within_budget deps services (take_next deps services) exceeded session
  unfolding within_budget
  within_budget-eq (some exceeded) session e = refl
  within_budget-eq none session e =
      rw (run_once-eq-take_next deps services session.blocked_this_run session.machine e) refl

  take_work-eq :
      (runs : List RunRecord) (session : Session W)
      → in_flight session.machine.journal ≡ runs
      → take_work deps services (run_once deps services) runs session
        ≡ take_work deps services (take_next deps services) runs session
  unfolding take_work
  take_work-eq (run ∷ rest) session e = refl
  take_work-eq [] session e =
      elim (Bool-cases
        (not (eqb (issue_budget deps.config) 0) && leb (issue_budget deps.config) session.taken)) [
          | inl f ↦ rw f refl
          | inr f ↦ rw f (within_budget-eq _ _ e)
        ]

  after_moves-eq :
      (r : Result (List Moved)) (session : Session W)
      → after_moves deps services (run_once deps services) r session
        ≡ after_moves deps services (take_next deps services) r session
  unfolding after_moves
  after_moves-eq (thrown message) session = refl
  after_moves-eq (ok moves) session = take_work-eq _ (note_moves moves session) refl

-- A pass through the loop of an unattended session is one in which `runOnce` only ever selects an
-- issue: its part that resumes a run in flight is never reached from there.
pub cycle-eq-take_next :
    {W : Type 0} (deps : Deps) (services : Services W) (session : Session W)
    → cycle deps services session ≡ cycle_with deps services (take_next deps services) session
unfolding cycle cycle_with
cycle-eq-take_next deps services session = after_moves-eq deps services _ _

-- What holds of a session at each turn: at most one run is in flight.
pub record IsOrderly {W : Type 0} (deps : Deps) (session : Session W) : Type 0 where
  pub one_in_flight : length (in_flight session.machine.journal) ≤ 1

module _ {W : Type 0} (deps : Deps) (services : Services W) where
  note_move-IsOrderly :
      (moved : Moved) (session : Session W)
      → IsOrderly deps session
      → IsOrderly deps (note_move moved session)
  unfolding note_move
  note_move-IsOrderly moved session h = elim (Bool-cases (eqb moved.outcome.issue 0)) [
    | inl e ↦ rw e h
    | inr e ↦ rw e (record { one_in_flight = h.one_in_flight })
  ]

  note_moves-IsOrderly :
      (moves : List Moved) (session : Session W)
      → IsOrderly deps session
      → IsOrderly deps (note_moves moves session)
  unfolding note_moves
  note_moves-IsOrderly [] session h = h
  note_moves-IsOrderly (moved ∷ rest) session h =
      note_moves-IsOrderly rest _ (note_move-IsOrderly moved session h)

  note_all-IsOrderly :
      (outcomes : List IssueOutcome) (session : Session W)
      → length outcomes ≤ 1
      → length (in_flight session.machine.journal) ≤ 1
      → IsOrderly deps (note_all deps services outcomes session)
  unfolding note_all note_taken spend_issue
  note_all-IsOrderly [] session n h = record { one_in_flight = h }
  note_all-IsOrderly (outcome ∷ []) session n h = record { one_in_flight = h }
  note_all-IsOrderly (outcome ∷ (more ∷ rest)) session n h =
      let bad : ⊥ = omega (arith, n) in elim bad [ ]

  wait_or_stop-IsOrderly :
      (wait : Option Wait) (session : Session W)
      → IsOrderly deps session
      → IsOrderly deps (wait_or_stop deps services wait session).1
  unfolding wait_or_stop
  wait_or_stop-IsOrderly none session h = h
  wait_or_stop-IsOrderly (some wait) session h = record { one_in_flight = h.one_in_flight }

  tolerate-IsOrderly :
      (session : Session W)
      → IsOrderly deps session
      → IsOrderly deps (tolerate deps services session).1
  unfolding tolerate
  tolerate-IsOrderly session h =
      wait_or_stop-IsOrderly (failed deps.config session.backoff).0 _
        (record { one_in_flight = h.one_in_flight })

  after_once-IsOrderly :
      (r : Result OnceResult) (session : Session W)
      → Given (λ (o : OnceResult). length o.outcomes ≤ 1) r
      → length (in_flight session.machine.journal) ≤ 1
      → IsOrderly deps (after_once deps services r session).1
  unfolding after_once
  after_once-IsOrderly (thrown message) session g h =
      tolerate-IsOrderly session (record { one_in_flight = h })
  after_once-IsOrderly (ok result) session g h =
      let noted = note_all-IsOrderly result.outcomes session g h in
      elim (Bool-cases (is_nothing_ready result.stop_reason && is_empty result.outcomes)) [
        | inl e ↦ rw e noted
        | inr e ↦ rw e (record { one_in_flight = noted.one_in_flight })
      ]

  within_budget-IsOrderly :
      (exceeded : Option BudgetExceeded) (session : Session W)
      → in_flight session.machine.journal ≡ []
      → IsOrderly deps (within_budget deps services (take_next deps services) exceeded session).1
  unfolding within_budget
  within_budget-IsOrderly (some exceeded) session e = record { one_in_flight = rw e (omega arith) }
  within_budget-IsOrderly none session e =
      after_once-IsOrderly _ _
        (take_next-HoldsOne deps services session.blocked_this_run session.machine e)
        (take_next-Single deps services session.blocked_this_run session.machine e)

  take_work-IsOrderly :
      (runs : List RunRecord) (session : Session W)
      → in_flight session.machine.journal ≡ runs
      → IsOrderly deps session
      → IsOrderly deps (take_work deps services (take_next deps services) runs session).1
  unfolding take_work
  take_work-IsOrderly (run ∷ rest) session e h = record { one_in_flight = h.one_in_flight }
  take_work-IsOrderly [] session e h =
      let limit = issue_budget deps.config in
      elim (Bool-cases (not (eqb limit 0) && leb limit session.taken)) [
        | inl f ↦ rw f h
        | inr f ↦ rw f (
            within_budget-IsOrderly _
              (record session {
                machine = record session.machine {
                  budget =
                      (check deps.config (services.readings session.machine.world)
                        session.machine.budget).1;
                };
              })
              e)
      ]

  after_moves-IsOrderly :
      (r : Result (List Moved)) (session : Session W)
      → IsOrderly deps session
      → IsOrderly deps (after_moves deps services (take_next deps services) r session).1
  unfolding after_moves
  after_moves-IsOrderly (thrown message) session h = tolerate-IsOrderly session h
  after_moves-IsOrderly (ok moves) session h =
      take_work-IsOrderly _ (note_moves moves session) refl (note_moves-IsOrderly moves session h)

  cycle-IsOrderly :
      (session : Session W)
      → IsOrderly deps session
      → IsOrderly deps (cycle deps services session).1
  unfolding cycle_with
  cycle-IsOrderly session h = rw (cycle-eq-take_next deps services session) (
      after_moves-IsOrderly _ _ (record {
        one_in_flight = advance_machine-AtMostOne deps services session.machine h.one_in_flight;
      }))

  turn_end-IsOrderly :
      (end : CycleEnd) (session : Session W)
      → IsOrderly deps session
      → IsOrderly deps (turn_end deps services end session).1
  turn_end-IsOrderly (finishes reason) session h = h
  turn_end-IsOrderly continues session h = h
  turn_end-IsOrderly completes session h =
      elim (Bool-cases (services.stopping session.machine.world)) [
        | inl e ↦ rw e h
        | inr e ↦ rw e (record { one_in_flight = h.one_in_flight })
      ]

  turn-IsOrderly :
      (session : Session W) → IsOrderly deps session → IsOrderly deps (turn deps services session).1
  unfolding turn
  turn-IsOrderly session h = elim (Bool-cases (services.stopping session.machine.world)) [
    | inl e ↦ rw e h
    | inr e ↦ rw e (
        turn_end-IsOrderly (cycle deps services session).0 (cycle deps services session).1
          (cycle-IsOrderly session h))
  ]

  -- However long an unattended session goes on, and whatever its calls answer or throw, at most one
  -- run is in flight in its journal at the end of any number of turns, if that held when it began.
  pub run_unattended-IsOrderly :
      (turns : ℕ) (session : Session W)
      → IsOrderly deps session
      → IsOrderly deps (run_unattended deps services turns session).1
  unfolding run_unattended
  run_unattended-IsOrderly zero session h = h
  run_unattended-IsOrderly (suc turns) session h =
      elim (Option-cases (turn deps services session).0) [
        | inl e ↦
            rw (run_unattended, e) (run_unattended-IsOrderly turns _ (turn-IsOrderly session h))
        | inr (reason, e) ↦ rw (run_unattended, e) (turn-IsOrderly session h)
      ]
