-- ===== src/Runner/Once/Outcomes.antt =====
-- Taking an issue while nothing is in flight.
use space_elysiajs_orpc.Prelude.{
  ℕ, ◌≤◌, Option, none, some, List, [], ◌∷◌, ◌≡◌, refl, arith, length, map,
}
use space_elysiajs_orpc.Eligibility.{
  IssueSummary, SelectionPolicy, SelectionResult, select_next_issue,
}
use space_elysiajs_orpc.Runner.Github.{GhIssue, to_summary}
use space_elysiajs_orpc.Runner.Journal.{in_flight}
use space_elysiajs_orpc.Runner.Journal.Lookup.{nothing-OnlyInFlight}
use space_elysiajs_orpc.Runner.Machine.{
  Result, ok, thrown, Machine, Services, call, list_issues, read_journal,
}
use space_elysiajs_orpc.Runner.Machine.Laws.{
  Leads, Given, trivial-Given, Leads-bind, Leads-weaker, Leads-pure,
}
use space_elysiajs_orpc.Runner.Work.{Deps}
use space_elysiajs_orpc.Runner.Work.Issue.{from_the_start, work_issue}
use space_elysiajs_orpc.Runner.Work.Issue.Safety.{work_issue-OnlyInFlight}
use space_elysiajs_orpc.Runner.Once.{
  DryRunPlan, OnceResult, nothing_ready, one_outcome, take_selected, take_next, resume_or_take,
  run_once,
}

module _ {W : Type 0} (deps : Deps) (services : Services W) where
  Idle : Machine W → Type 0
  Idle s = in_flight s.journal ≡ []

  Single : Machine W → Type 0
  Single s = length (in_flight s.journal) ≤ 1

  Single-of_Idle : (s : Machine W) → Idle s → Single s
  unfolding Idle Single
  Single-of_Idle s e = rw e (omega arith)

  -- The result holds at most one outcome.
  HoldsOne : OnceResult → Type 0
  HoldsOne r = length r.outcomes ≤ 1

  list-Idle : Leads Idle Idle (call services list_issues) (λ _. Unit)
  unfolding Leads Idle call
  list-Idle s e = (e, trivial-Given (services.answer list_issues s.world).0)

  work-Single :
      (issue : IssueSummary)
      → Leads Idle Single (work_issue deps services issue from_the_start) (λ _. Unit)
  unfolding Leads Idle Single
  work-Single issue s e = (
    (work_issue-OnlyInFlight deps services issue from_the_start s
        (nothing-OnlyInFlight issue.number s.journal e)).at_most_one,
    trivial-Given (work_issue deps services issue from_the_start s).0,
  )

  take_selected-Leads :
      (selected : Option IssueSummary)
      → Leads Idle Single (take_selected deps services selected) HoldsOne
  unfolding take_selected HoldsOne
  take_selected-Leads none =
      Leads-weaker Idle Single (record { outcomes = []; stop_reason = nothing_ready }) HoldsOne
        Single-of_Idle (omega arith)
  take_selected-Leads (some issue) =
      Leads-bind Idle Single Single (λ _. Unit) _ _ _ (work-Single issue) (λ s i. i)
        (λ outcome _. Leads-pure Single (one_outcome deps services outcome) HoldsOne (omega arith))

  take_next-Leads : (skip : List ℕ) → Leads Idle Single (take_next deps services skip) HoldsOne
  unfolding take_next
  take_next-Leads skip =
      Leads-bind Idle Idle Single (λ _. Unit) _ _ _ list-Idle Single-of_Idle
        (λ issues _.
          take_selected-Leads
            (select_next_issue (map (to_summary deps.upper deps.lower) issues)
              (record deps.selection_policy { skip = skip })).selected)

  -- With nothing in flight, taking an issue leaves at most one run in flight, also where it throws,
  -- and gives at most one outcome.
  pub take_next-Single :
      (skip : List ℕ) (s : Machine W)
      → in_flight s.journal ≡ []
      → length (in_flight (take_next deps services skip s).1.journal) ≤ 1
  unfolding Leads Idle Single
  take_next-Single skip s e = (take_next-Leads skip s e).0

  pub take_next-HoldsOne :
      (skip : List ℕ) (s : Machine W)
      → in_flight s.journal ≡ []
      → Given (λ (r : OnceResult). length r.outcomes ≤ 1) (take_next deps services skip s).0
  unfolding Leads Idle HoldsOne
  take_next-HoldsOne skip s e = (take_next-Leads skip s e).1

  -- With nothing in flight, one pass selects and never resumes.
  pub run_once-eq-take_next :
      (skip : List ℕ) (s : Machine W)
      → in_flight s.journal ≡ []
      → run_once deps services skip s ≡ take_next deps services skip s
  unfolding run_once read_journal resume_or_take
  run_once-eq-take_next skip s e = rw e refl

module _ {W : Type 0} (deps : Deps) (services : Services W) where
  abbrev pub Listed : Machine W → Machine W → Type 0
  Listed s t = (t.journal ≡ s.journal) × (t.budget ≡ s.budget) × (t.calls ≡ list_issues ∷ s.calls)

  abbrev pub FollowsBy :
      Machine W → (Result OnceResult × Machine W) → (Result DryRunPlan × Machine W) → Type 0
  FollowsBy s taken (ok plan, t) =
      Listed s t × (taken ≡ take_selected deps services plan.selected t)
  FollowsBy s taken (thrown message, t) = Listed s t × (taken ≡ (thrown message, t))

  -- Nothing changed but that the issues were listed, and `runOnce` from the same state does what is
  -- planned.
  abbrev pub Follows : Machine W → (Result DryRunPlan × Machine W) → Type 0
  Follows s planned = FollowsBy s (run_once deps services [] s) planned

  listed : Machine W → W → Machine W
  listed s w = record s { world = w; calls = list_issues ∷ s.calls }

  chosen : List GhIssue → SelectionPolicy → SelectionResult
  chosen issues p = select_next_issue (map (to_summary deps.upper deps.lower) issues) p
