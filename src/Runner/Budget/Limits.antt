-- ===== src/Runner/Budget/Limits.antt =====
-- What the limits promise over a session, in which old entries are pruned all along.
use space_elysiajs_orpc.Prelude.{ℕ, ◌≤◌, List, [], ◌∷◌, ◌≡◌, refl, ◌∙◌, arith, All}
use space_elysiajs_orpc.Runner.{RunnerConfig}
use space_elysiajs_orpc.Runner.Budget.{
  Budget, Readings, day, hour, within, prune, check, exceeded, snapshot, record_issue,
  record_invocation, new_budget,
}
use space_elysiajs_orpc.Runner.Budget.Windows.{within-drop_aged, within-append}

-- What happens to a budget.
pub data Event : Type 0 where
  invoked : ℕ → Event
  claimed : ℕ → Event
  checked : Readings → Event
  summed_up : ℕ → ℕ → ℕ → Event

pub after : RunnerConfig → List Event → Budget → Budget
after config [] b = b
after config (invoked at ∷ rest) b = after config rest (record_invocation at b)
after config (claimed at ∷ rest) b = after config rest (record_issue at b)
after config (checked now ∷ rest) b = after config rest (check config now b).1
after config (summed_up d h now ∷ rest) b = after config rest (snapshot d h now b).1

-- The same with all that ever happened kept.
pub kept : List Event → Budget → Budget
kept [] b = b
kept (invoked at ∷ rest) b = kept rest (record_invocation at b)
kept (claimed at ∷ rest) b = kept rest (record_issue at b)
kept (checked now ∷ rest) b = kept rest b
kept (summed_up d h now ∷ rest) b = kept rest b

-- No check or snapshot was made later than `now`.
abbrev pub IsBefore : Readings → Event → Type 0
IsBefore now (invoked at) = Unit
IsBefore now (claimed at) = Unit
IsBefore now (checked earlier) =
    (earlier.prune_hour ≤ now.at_invocations) × (earlier.prune_day ≤ now.at_issues)
IsBefore now (summed_up d h at) = (h ≤ now.at_invocations) × (d ≤ now.at_issues)

-- Both budgets give the same counts at `now`.
record Agree (now : Readings) (b c : Budget) : Type 0 where
  in_hour :
      within now.at_invocations hour b.invocations ≡ within now.at_invocations hour c.invocations
  in_day : within now.at_issues day b.issues ≡ within now.at_issues day c.issues
  started : b.started_at ≡ c.started_at

exceeded-Agree :
    (config : RunnerConfig) (now : Readings) (b c : Budget)
    → Agree now b c
    → exceeded config now b ≡ exceeded config now c
unfolding exceeded
exceeded-Agree config now b c a = rw (a.in_hour, a.in_day, a.started) refl

prune-Agree :
    (now : Readings) (then_day then_hour : ℕ) (b c : Budget)
    → then_hour ≤ now.at_invocations
    → then_day ≤ now.at_issues
    → Agree now b c
    → Agree now (prune then_day then_hour b) c
unfolding prune
prune-Agree now d h b c p q a = record {
  in_hour = within-drop_aged h now.at_invocations hour b.invocations p ∙ a.in_hour;
  in_day = within-drop_aged d now.at_issues day b.issues q ∙ a.in_day;
  started = a.started;
}

invocation-Agree :
    (now : Readings) (at : ℕ) (b c : Budget)
    → Agree now b c
    → Agree now (record_invocation at b) (record_invocation at c)
unfolding record_invocation
invocation-Agree now at b c a = record {
  in_hour = omega (
    arith,
    within-append now.at_invocations hour b.invocations (at ∷ []),
    within-append now.at_invocations hour c.invocations (at ∷ []),
    a.in_hour,
  );
  in_day = a.in_day;
  started = a.started;
}

issue-Agree :
    (now : Readings) (at : ℕ) (b c : Budget)
    → Agree now b c
    → Agree now (record_issue at b) (record_issue at c)
unfolding record_issue
issue-Agree now at b c a = record {
  in_hour = a.in_hour;
  in_day = omega (
    arith,
    within-append now.at_issues day b.issues (at ∷ []),
    within-append now.at_issues day c.issues (at ∷ []),
    a.in_day,
  );
  started = a.started;
}

after-Agree :
    (config : RunnerConfig) (now : Readings) (events : List Event) (b c : Budget)
    → All (IsBefore now) events
    → Agree now b c
    → Agree now (after config events b) (kept events c)
unfolding after kept check snapshot
after-Agree config now [] b c h a = a
after-Agree config now (invoked at ∷ rest) b c h a =
    after-Agree config now rest _ _ h.1 (invocation-Agree now at b c a)
after-Agree config now (claimed at ∷ rest) b c h a =
    after-Agree config now rest _ _ h.1 (issue-Agree now at b c a)
after-Agree config now (checked e ∷ rest) b c h a =
    after-Agree config now rest _ c h.1 (prune-Agree now e.prune_day e.prune_hour b c h.0.0 h.0.1 a)
after-Agree config now (summed_up d k at ∷ rest) b c h a =
    after-Agree config now rest _ c h.1 (prune-Agree now d k b c h.0.0 h.0.1 a)

-- Pruning is not seen: after any events, of which no check and no snapshot was later, a check answers what the three
-- tests say of all that was ever recorded.
pub check-after :
    (config : RunnerConfig) (started : ℕ) (events : List Event) (now : Readings)
    → All (IsBefore now) events
    → now.prune_hour ≤ now.at_invocations
    → now.prune_day ≤ now.at_issues
    → (check config now (after config events (new_budget started))).0
      ≡ exceeded config now (kept events (new_budget started))
unfolding check
check-after config started events now h p q = exceeded-Agree config now _ _ (
    prune-Agree now now.prune_day now.prune_hour _ _ p q (
      after-Agree config now events _ _ h
        (record { in_hour = refl; in_day = refl; started = refl })))
