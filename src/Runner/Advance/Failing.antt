-- ===== src/Runner/Advance/Failing.antt =====
-- tooling/local-runner/src/orchestrator.ts, advance: how many failing polls of its checks a run in
-- flight outlasts.
use space_elysiajs_orpc.Prelude.{ℕ, zero, suc, ◌⊎◌, false, ◌≡◌}
use space_elysiajs_orpc.Runner.{RunnerConfig}
use space_elysiajs_orpc.Runner.Journal.{Journal}
use space_elysiajs_orpc.Runner.Advance.{
  Remote, open_state, clean, behind, held, unknown, failing, advance,
}

-- The pull request is open, has no conflict that the runner sees and no update that its branch takes,
-- and its checks fail.
pub record IsFailing (remote : Remote) : Type 0 where
  pub is_open : remote.state ≡ open_state
  pub mergeable :
      (remote.mergeability ≡ clean)
      ⊎ (remote.mergeability ≡ held)
      ⊎ (remote.mergeability ≡ unknown)
      ⊎ ((remote.mergeability ≡ behind) × (remote.updates ≡ false))
  pub fails : remote.verdict ≡ failing

-- The journal after so many polls, each with its own answers.
pub after_polls : RunnerConfig → (ℕ → ℕ → Remote) → ℕ → Journal → Journal
after_polls config remotes zero j = j
after_polls config remotes (suc n) j =
    (advance config (remotes n) (after_polls config remotes n j)).1
