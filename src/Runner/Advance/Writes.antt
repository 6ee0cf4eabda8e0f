-- ===== src/Runner/Advance/Writes.antt =====
-- What one move of a run writes into the journal: nothing, or that run's own record.
use space_elysiajs_orpc.Prelude.{◌+◌, ◌⊎◌, inl, inr, Bool, true, false, ◌≡◌, refl, leb, Bool-cases}
use space_elysiajs_orpc.Runner.{RunnerConfig}
use space_elysiajs_orpc.Runner.Journal.{RunRecord, Journal, upsert_run, blocked, done}
use space_elysiajs_orpc.Runner.Advance.{
  Remote, PullRequestState, open_state, merged_state, closed_state, Mergeability, clean, behind,
  conflicted, held, unknown, ChecksVerdict, pending, passing, failing, none_reported,
  advance_checks, advance_open, advance_at,
}

abbrev pub Writes : RunRecord → Journal → Journal → Type 0
Writes run before after =
    (after ≡ before)
    ⊎ ((written : RunRecord) × (written.issue ≡ run.issue) × (after ≡ upsert_run before written))

advance_checks-Writes :
    (config : RunnerConfig) (verdict : ChecksVerdict) (run : RunRecord) (j : Journal)
    → Writes run j (advance_checks config verdict run j).1
unfolding advance_checks
advance_checks-Writes config pending run j = inl refl
advance_checks-Writes config none_reported run j = inl refl
advance_checks-Writes config passing run j = inl refl
advance_checks-Writes config failing run j =
    elim (Bool-cases (leb config.ci_fix_rounds (run.ci_rounds + 1))) [
      | inl e ↦ rw e (inr (record run { status = blocked }, refl, refl))
      | inr e ↦ rw e (inr (record run { ci_rounds = run.ci_rounds + 1 }, refl, refl))
    ]

advance_open-Writes :
    (config : RunnerConfig) (m : Mergeability) (updates : Bool) (verdict : ChecksVerdict)
    (run : RunRecord) (j : Journal)
    → Writes run j (advance_open config m updates verdict run j).1
unfolding advance_open
advance_open-Writes config behind true verdict run j = inl refl
advance_open-Writes config behind false verdict run j = advance_checks-Writes config verdict run j
advance_open-Writes config conflicted updates verdict run j = inl refl
advance_open-Writes config clean updates verdict run j = advance_checks-Writes config verdict run j
advance_open-Writes config held updates verdict run j = advance_checks-Writes config verdict run j
advance_open-Writes config unknown updates verdict run j =
    advance_checks-Writes config verdict run j

pub advance_at-Writes :
    (config : RunnerConfig) (state : PullRequestState) (remote : Remote) (run : RunRecord)
    (j : Journal)
    → Writes run j (advance_at config state remote run j).1
unfolding advance_at
advance_at-Writes config merged_state remote run j = inr (record run { status = done }, refl, refl)
advance_at-Writes config closed_state remote run j = inr (record run { status = done }, refl, refl)
advance_at-Writes config open_state remote run j =
    advance_open-Writes config remote.mergeability remote.updates remote.verdict run j
