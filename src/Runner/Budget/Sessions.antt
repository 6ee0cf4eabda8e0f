-- ===== src/Runner/Budget/Sessions.antt =====
-- What the limit on issues promises of a session that asks before it takes one.
use space_elysiajs_orpc.Prelude.{ℕ, ◌≤◌, ◌<◌, none, List, [], ◌∷◌, ◌++◌, ◌≡◌, refl, ◌∙◌, arith}
use space_elysiajs_orpc.Runner.{RunnerConfig}
use space_elysiajs_orpc.Runner.Budget.{
  Budget, Readings, day, within, prune, check, exceeded, record_issue, record_invocation,
  new_budget,
}
use space_elysiajs_orpc.Runner.Budget.Windows.{within-drop_aged, within_later, within-append}

-- A session in the order of time: the time of its last check or issue, its budget, and all the times
-- at which it took an issue. An issue is only taken after a check that found nothing.
pub data Session (config : RunnerConfig) : ℕ → Budget → List ℕ → Type 0 where
  started : (at : ℕ) → Session config at (new_budget at) []
  invoked :
      (at last : ℕ) (b : Budget) (log : List ℕ)
      → Session config last b log
      → Session config last (record_invocation at b) log
  checked :
      (now : Readings) (last : ℕ) (b : Budget) (log : List ℕ)
      → Session config last b log
      → last ≤ now.at_issues
      → now.prune_day ≤ now.at_issues
      → Session config now.at_issues (check config now b).1 log
  taken :
      (now : Readings) (at last : ℕ) (b : Budget) (log : List ℕ)
      → Session config last b log
      → (check config now b).0 ≡ none
      → last ≤ now.at_issues
      → now.prune_day ≤ now.at_issues
      → now.at_issues ≤ at
      → Session config at (record_issue at (check config now b).1) (log ++ at ∷ [])

-- What pruning left counts the same issues as the full log.
Session-within :
    (config : RunnerConfig) (last : ℕ) (b : Budget) (log : List ℕ)
    → Session config last b log
    → (n : ℕ) → last ≤ n
    → within n day b.issues ≡ within n day log
unfolding new_budget record_invocation record_issue check prune
Session-within config _ _ _ (started at) n h = refl
Session-within config _ _ _ (invoked at last b log s) n h = Session-within config last b log s n h
Session-within config _ _ _ (checked now last b log s l p) n h =
    within-drop_aged now.prune_day n day b.issues (omega arith)
    ∙ Session-within config last b log s n (omega arith)
Session-within config _ _ _ (taken now at last b log s e l p q) n h = omega (
  arith,
  within-append n day (prune now.prune_day now.prune_hour b).issues (at ∷ []),
  within-append n day log (at ∷ []),
  within-drop_aged now.prune_day n day b.issues (omega arith),
  Session-within config last b log s n (omega arith),
)

-- What a check that finds nothing tells of the day's issues.
check-none :
    (config : RunnerConfig) (now : Readings) (b : Budget)
    → (check config now b).0 ≡ none
    → 0 < config.max_issues_per_day
    → now.prune_day ≤ now.at_issues
    → within now.at_issues day b.issues < config.max_issues_per_day
unfolding check exceeded prune
check-none config now b e pos_day h =
    let q = within-drop_aged now.prune_day now.at_issues day b.issues h in ground arith

within-one : (n at : ℕ) → within n day (at ∷ []) ≤ 1
unfolding within
within-one n at = ground arith

-- Of a session that asks before it takes an issue: with a limit above 0, in no 24 hours up to a time
-- after the session's last event were more issues taken than the limit, whatever was pruned.
pub issues_limited :
    (config : RunnerConfig) (last : ℕ) (b : Budget) (log : List ℕ)
    → Session config last b log
    → 0 < config.max_issues_per_day
    → (n : ℕ) → last ≤ n
    → within n day log ≤ config.max_issues_per_day
unfolding within
issues_limited config _ _ _ (started at) d n h = omega arith
issues_limited config _ _ _ (invoked at last b log s) d n h =
    issues_limited config last b log s d n h
issues_limited config _ _ _ (checked now last b log s l p) d n h =
    issues_limited config last b log s d n (omega arith)
issues_limited config _ _ _ (taken now at last b log s e l p q) d n h = omega (
  arith,
  within-append n day log (at ∷ []),
  within-one n at,
  within_later now.at_issues n day log (omega arith),
  Session-within config last b log s now.at_issues l,
  check-none config now b e d p,
)
