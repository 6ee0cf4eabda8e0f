-- ===== src/Runner/Budget.antt =====
-- tooling/local-runner/src/budget.ts: the limits on the loop as a whole. Times are milliseconds; a
-- time from which a window is subtracted is compared by an addition, so no cutoff falls below 0.
pub mod Windows
pub mod Limits
pub mod Sessions
use space_elysiajs_orpc.Prelude.{
  ℕ, ◌+◌, ◌-◌, ◌*◌, Bool, Option, none, some, List, [], ◌∷◌, ◌++◌, length, filter, leb, ltb, not,
  ◌&&◌, if◌then◌else◌,
}
use space_elysiajs_orpc.Runner.{RunnerConfig}

pub data BudgetKind : Type 0 where
  invocations issues runtime : BudgetKind

-- `detail` is told by what was used and the limit.
pub record BudgetExceeded : Type 0 where
  pub kind : BudgetKind
  pub used : ℕ
  pub limit : ℕ

pub record Budget : Type 0 where
  pub invocations : List ℕ
  pub issues : List ℕ
  pub started_at : ℕ

abbrev pub hour : ℕ
hour = 60 * 60 * 1000

abbrev pub day : ℕ
day = 24 * 60 * 60 * 1000

-- The readings of the clock within one `check`, one for each place that reads it.
pub record Readings : Type 0 where
  pub prune_day : ℕ
  pub prune_hour : ℕ
  pub at_invocations : ℕ
  pub at_issues : ℕ
  pub at_runtime : ℕ

unfoldable pub new_budget : ℕ → Budget
new_budget now = record { invocations = []; issues = []; started_at = now }

unfoldable pub record_invocation : ℕ → Budget → Budget
record_invocation now b = record {
  invocations = b.invocations ++ now ∷ [];
  issues = b.issues;
  started_at = b.started_at;
}

unfoldable pub record_issue : ℕ → Budget → Budget
record_issue now b = record {
  invocations = b.invocations;
  issues = b.issues ++ now ∷ [];
  started_at = b.started_at;
}

unfoldable pub within : ℕ → ℕ → List ℕ → ℕ
within now window timestamps = length (filter (λ at. leb now (at + window)) timestamps)

-- `while (xs.length > 0 && xs[0] < now - window) xs.shift()`
unfoldable pub drop_aged : ℕ → ℕ → List ℕ → List ℕ
drop_aged now window [] = []
drop_aged now window (at ∷ rest) =
    let dropped = drop_aged now window rest in if ltb (at + window) now then dropped else at ∷ rest

unfoldable pub prune : ℕ → ℕ → Budget → Budget
unfolding drop_aged
prune now_day now_hour b = record {
  invocations = drop_aged now_hour hour b.invocations;
  issues = drop_aged now_day day b.issues;
  started_at = b.started_at;
}

-- The three tests of `check`, on a budget that is pruned.
unfoldable pub exceeded : RunnerConfig → Readings → Budget → Option BudgetExceeded
unfolding within
exceeded config now b =
    let per_hour = config.max_model_invocations_per_hour in
    let per_day = config.max_issues_per_day in
    let max_hours = config.max_runtime_hours in
    let used_hour = within now.at_invocations hour b.invocations in
    let used_day = within now.at_issues day b.issues in
    if ltb 0 per_hour && leb per_hour used_hour
    then some (record { kind = BudgetKind.invocations; used = used_hour; limit = per_hour })
    else if ltb 0 per_day && leb per_day used_day
    then some (record { kind = BudgetKind.issues; used = used_day; limit = per_day })
    else if ltb 0 max_hours && leb (b.started_at + max_hours * hour) now.at_runtime
    then some (record {
      kind = BudgetKind.runtime;
      used = now.at_runtime - b.started_at;
      limit = max_hours;
    })
    else none

-- The answer, and the budget that is left.
unfoldable pub check : RunnerConfig → Readings → Budget → Option BudgetExceeded × Budget
unfolding exceeded prune
check config now b =
    let pruned = prune now.prune_day now.prune_hour b in (exceeded config now pruned, pruned)

pub record Spent : Type 0 where
  pub invocations : ℕ
  pub issues : ℕ
  pub runtime_ms : ℕ

-- `snapshot`, with the times read for the two prunings and at its end.
unfoldable pub snapshot : ℕ → ℕ → ℕ → Budget → Spent × Budget
unfolding prune
snapshot now_day now_hour now b =
    let pruned = prune now_day now_hour b in
    (
      record {
        invocations = length pruned.invocations;
        issues = length pruned.issues;
        runtime_ms = now - b.started_at;
      },
      pruned,
    )
