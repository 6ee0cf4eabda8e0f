-- ===== src/Runner/Session/Failures.antt =====
-- How many failures in a row a session waits out.
use space_elysiajs_orpc.Prelude.{
  String, ap, ℕ, suc, ◌+◌, ◌≤◌, Bool, true, false, Option, none, some, List, [], ◌∷◌, ◌≡◌, refl,
  ◌∙◌, subst, arith, eqb, leb, ltb, not, ◌&&◌, Bool-cases, inl, inr, is_empty, if◌then◌else◌,
}
use space_elysiajs_orpc.Runner.{issue_budget}
use space_elysiajs_orpc.Runner.Backoff.{Backoff, Wait, failed}
use space_elysiajs_orpc.Runner.Budget.{Budget, BudgetExceeded, check}
use space_elysiajs_orpc.Runner.Journal.{RunRecord, in_flight}
use space_elysiajs_orpc.Runner.Machine.{M, Result, ok, thrown, Machine, Services}
use space_elysiajs_orpc.Runner.Once.{OnceResult, run_once, github_unavailable}
use space_elysiajs_orpc.Runner.Work.{Deps}
use space_elysiajs_orpc.Runner.Session.{
  Session, CycleEnd, finishes, continues, cycle, cycle_with, after_moves, take_work, within_budget,
  after_once, tolerate, wait_or_stop, note_moves, note_move, is_nothing_ready,
}
use space_elysiajs_orpc.Runner.Session.Moves.{Moved, advance_machine}

module _ {W : Type 0} (deps : Deps) (services : Services W) where
  -- A pass that ends by `continue` counted one more failure than c, and not above the ceiling.
  Counts : ℕ → (CycleEnd × Session W) → Type 0
  Counts c r =
      r.0 ≡ continues
      → (r.1.backoff.consecutive ≡ suc c) × (suc c ≤ deps.config.max_consecutive_failures)

  wait_or_stop-Counts :
      (c : ℕ) (wait : Option Wait) (session : Session W)
      → session.backoff.consecutive ≡ suc c
      → ((w : Wait) → wait ≡ some w → suc c ≤ deps.config.max_consecutive_failures)
      → Counts c (wait_or_stop deps services wait session)
  unfolding Counts wait_or_stop
  wait_or_stop-Counts c none session e h q = cc
  wait_or_stop-Counts c (some w) session e h q = (e, h w refl)

  some_within :
      (b : Bool) (n m : ℕ) (w v : Wait)
      → b ≡ ltb m n
      → (if b then none else some v) ≡ some w
      → n ≤ m
  some_within true n m w v e q = cc
  some_within false n m w v e q = ground arith

  tolerate-Counts :
      (session : Session W) → Counts session.backoff.consecutive (tolerate deps services session)
  unfolding tolerate failed
  tolerate-Counts session =
      wait_or_stop-Counts session.backoff.consecutive (failed deps.config session.backoff).0
        (record session { backoff = (failed deps.config session.backoff).1 }) refl
        (λ w e.
          some_within (ltb deps.config.max_consecutive_failures (suc session.backoff.consecutive)) _
            _ w _ refl e)

  after_once-Counts :
      (r : Result OnceResult) (session : Session W)
      → Counts session.backoff.consecutive (after_once deps services r session)
  unfolding after_once Counts
  after_once-Counts (thrown message) session q = tolerate-Counts session q
  after_once-Counts (ok result) session q =
      elim (Bool-cases (is_nothing_ready result.stop_reason && is_empty result.outcomes)) [
        | inl e ↦ cc (rw e at q)
        | inr e ↦ cc (rw e at q)
      ]

  module _ (once : List ℕ → M (Machine W) OnceResult) where
    within_budget-Counts :
        (exceeded : Option BudgetExceeded) (session : Session W)
        → Counts session.backoff.consecutive (within_budget deps services once exceeded session)
    unfolding within_budget Counts
    within_budget-Counts (some exceeded) session q = cc
    within_budget-Counts none session q = after_once-Counts _ _ q

    take_work-Counts :
        (runs : List RunRecord) (session : Session W)
        → Counts session.backoff.consecutive (take_work deps services once runs session)
    unfolding take_work Counts
    take_work-Counts (run ∷ rest) session q = cc
    take_work-Counts [] session q =
        let limit = issue_budget deps.config in
        elim (Bool-cases (not (eqb limit 0) && leb limit session.taken)) [
          | inl f ↦ cc (rw f at q)
          | inr f ↦ rw f (within_budget-Counts _ _ (rw f at q))
        ]

    note_move-backoff :
        (moved : Moved) (session : Session W) → (note_move moved session).backoff ≡ session.backoff
    unfolding note_move
    note_move-backoff moved session = elim (Bool-cases (eqb moved.outcome.issue 0)) [
      | inl e ↦ rw e refl
      | inr e ↦ rw e refl
    ]

    note_moves-backoff :
        (moves : List Moved) (session : Session W)
        → (note_moves moves session).backoff ≡ session.backoff
    unfolding note_moves
    note_moves-backoff [] session = refl
    note_moves-backoff (moved ∷ rest) session =
        note_moves-backoff rest (note_move moved session) ∙ note_move-backoff moved session

    after_moves-Counts :
        (r : Result (List Moved)) (session : Session W)
        → Counts session.backoff.consecutive (after_moves deps services once r session)
    unfolding after_moves
    after_moves-Counts (thrown message) session = tolerate-Counts session
    after_moves-Counts (ok moves) session =
        subst
          (λ (b : Backoff). Counts b.consecutive (
            take_work deps services once (in_flight (note_moves moves session).machine.journal)
              (note_moves moves session)))
          (note_moves-backoff moves session) (take_work-Counts _ (note_moves moves session))

  cycle-Counts :
      (session : Session W) → Counts session.backoff.consecutive (cycle deps services session)
  unfolding cycle cycle_with
  cycle-Counts session = after_moves-Counts (run_once deps services) _ _

  -- So many passes in a row that each end by `continue`.
  pub data Failing : ℕ → Session W → Session W → Type 0 where
    not_yet : (s : Session W) → Failing 0 s s
    again :
        (n : ℕ) (s t : Session W)
        → Failing n s t
        → (cycle deps services t).0 ≡ continues
        → Failing (suc n) s (cycle deps services t).1

  Failing-counted :
      (n : ℕ) (s t : Session W)
      → Failing n s t
      → s.backoff.consecutive ≤ deps.config.max_consecutive_failures
      → (t.backoff.consecutive ≡ s.backoff.consecutive + n)
        × (t.backoff.consecutive ≤ deps.config.max_consecutive_failures)
  unfolding Counts
  Failing-counted _ _ _ (not_yet s) h = (omega arith, h)
  Failing-counted _ _ _ (again n s t f e) h =
      let (counted, ceiling) = cycle-Counts t e in
      let (before, _) = Failing-counted n s t f h in
      (omega (arith, counted, before), omega (arith, counted, ceiling))

  -- The session once the runs in flight were moved forward, and its budget's answer then.
  abbrev pub moved_on : Session W → List Moved → Session W
  moved_on t moves =
      note_moves moves (record t { machine = (advance_machine deps services t.machine).1 })

  abbrev pub asked_budget : Session W → Option BudgetExceeded × Budget
  asked_budget session =
      check deps.config (services.readings session.machine.world) session.machine.budget

  -- A pass in which a call throws: either where the runs in flight are moved forward, or, with none
  -- left in flight and neither limit reached, where an issue is selected and worked on.
  pub data Throws (t : Session W) : Type 0 where
    in_advance :
        (message : String) → (advance_machine deps services t.machine).0 ≡ thrown message → Throws t
    in_once :
        (moves : List Moved) (message : String)
        → (advance_machine deps services t.machine).0 ≡ ok moves
        → in_flight (moved_on t moves).machine.journal ≡ []
        → (not (eqb (issue_budget deps.config) 0)
            && leb (issue_budget deps.config) (moved_on t moves).taken)
          ≡ false
        → (asked_budget (moved_on t moves)).0 ≡ none
        → (run_once deps services
            (moved_on t moves).blocked_this_run
            (record (moved_on t moves).machine { budget = (asked_budget (moved_on t moves)).1 })).0
          ≡ thrown message
        → Throws t

  -- How a failed pass ends after so many failures in a row.
  abbrev pub end_after : ℕ → CycleEnd
  end_after c =
      if ltb deps.config.max_consecutive_failures (suc c)
      then finishes github_unavailable
      else continues

  wait_or_stop_end :
      (b : Bool) (wait : Wait) (session : Session W)
      → (wait_or_stop deps services (if b then none else some wait) session).0
        ≡ (if b then finishes github_unavailable else continues)
  unfolding wait_or_stop
  wait_or_stop_end true wait session = refl
  wait_or_stop_end false wait session = refl

  tolerate_end :
      (session : Session W)
      → (tolerate deps services session).0 ≡ end_after session.backoff.consecutive
  unfolding tolerate failed
  tolerate_end session =
      wait_or_stop_end (ltb deps.config.max_consecutive_failures (suc session.backoff.consecutive))
        _ _

  take_work_end :
      (session : Session W) (message : String)
      → in_flight session.machine.journal ≡ []
      → (not (eqb (issue_budget deps.config) 0) && leb (issue_budget deps.config) session.taken)
        ≡ false
      → (check deps.config (services.readings session.machine.world) session.machine.budget).0
        ≡ none
      → (run_once deps services session.blocked_this_run (record session.machine {
        budget =
            (check deps.config (services.readings session.machine.world) session.machine.budget).1;
      })).0
        ≡ thrown message
      → (take_work deps services
          (run_once deps services)
          (in_flight session.machine.journal)
          session).0
        ≡ end_after session.backoff.consecutive
  unfolding take_work within_budget after_once
  take_work_end session message idle room spare threw =
      rw (idle, room, spare, threw) (tolerate_end _)

  Throws-end_after :
      (t : Session W) → Throws t → (cycle deps services t).0 ≡ end_after t.backoff.consecutive
  unfolding cycle cycle_with after_moves
  Throws-end_after t (Throws.in_advance message e) = rw e (tolerate_end _)
  Throws-end_after t (Throws.in_once moves message e idle room spare threw) = rw e (
      take_work_end (moved_on t moves) message idle room spare threw
      ∙ ap (λ (b : Backoff). end_after b.consecutive)
          (note_moves-backoff (run_once deps services) moves
            (record t { machine = (advance_machine deps services t.machine).1 })))

  end_after_limit :
      (c max : ℕ)
      → c ≤ max
      → (if ltb max (suc c) then finishes github_unavailable else continues)
        ≡ (if eqb c max then finishes github_unavailable else continues)
  end_after_limit c max le = ground arith

  -- From a session that has not counted more failures in a row than the ceiling, only so many passes
  -- in a row can fail and be waited out as are left below it; and the next pass in which a call
  -- throws is waited out too while the ceiling is not reached, and stops the session with
  -- `github_unavailable` once it is.
  pub Failing-limited :
      (n : ℕ) (s t : Session W)
      → Failing n s t
      → s.backoff.consecutive ≤ deps.config.max_consecutive_failures
      → (s.backoff.consecutive + n ≤ deps.config.max_consecutive_failures)
        × (Throws t
            → (cycle deps services t).0 ≡ (
                if eqb (s.backoff.consecutive + n) deps.config.max_consecutive_failures
                then finishes github_unavailable
                else continues))
  Failing-limited n s t f h =
      let (counted, ceiling) = Failing-counted n s t f h in
      (
        omega (arith, counted, ceiling),
        λ threw.
            Throws-end_after t threw
            ∙ end_after_limit t.backoff.consecutive deps.config.max_consecutive_failures ceiling
            ∙ ap
                (λ (k : ℕ).
                  if eqb k deps.config.max_consecutive_failures
                  then finishes github_unavailable
                  else continues)
                counted,
      )
