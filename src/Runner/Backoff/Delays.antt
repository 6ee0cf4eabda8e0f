-- ===== src/Runner/Backoff/Delays.antt =====
-- How the delays grow, and when the failures are given up on.
use space_elysiajs_orpc.Prelude.{
  ℕ, suc, ◌-◌, ◌*◌, ◌^◌, min, Bool, true, false, none, some, List, [], ◌∷◌, ◌≡◌, refl, arith, ltb,
  Bool-cases, inl, inr, if◌then◌else◌,
}
use space_elysiajs_orpc.Runner.{RunnerConfig}
use space_elysiajs_orpc.Runner.Backoff.{Backoff, succeeded, failed, new_backoff}

-- The steps of a session, true for a success.
pub after_steps : RunnerConfig → List Bool → Backoff → Backoff
after_steps config [] b = b
after_steps config (true ∷ steps) b = after_steps config steps (succeeded b)
after_steps config (false ∷ steps) b = after_steps config steps (failed config b).1

-- The failures since the last success, where `before` came earlier.
pub trailing_failures : ℕ → List Bool → ℕ
trailing_failures before [] = before
trailing_failures before (true ∷ steps) = trailing_failures 0 steps
trailing_failures before (false ∷ steps) = trailing_failures (suc before) steps

after_steps-consecutive :
    (config : RunnerConfig) (steps : List Bool) (b : Backoff)
    → (after_steps config steps b).consecutive ≡ trailing_failures b.consecutive steps
unfolding after_steps trailing_failures failed succeeded
after_steps-consecutive config [] b = refl
after_steps-consecutive config (true ∷ steps) b = after_steps-consecutive config steps (succeeded b)
after_steps-consecutive config (false ∷ steps) b =
    after_steps-consecutive config steps (failed config b).1

-- The delay before retry n, from 0.
abbrev pub delay : RunnerConfig → ℕ → ℕ
delay config n =
    min (config.backoff_base_seconds * 1000 * 2 ^ n) (config.backoff_max_seconds * 1000)

failed_at :
    (config : RunnerConfig) (b : Backoff)
    → (failed config b).0 ≡ (
        if ltb b.consecutive config.max_consecutive_failures
        then some (record { wait_ms = delay config b.consecutive; consecutive = suc b.consecutive })
        else none)
unfolding failed
failed_at config b = elim (Bool-cases (ltb config.max_consecutive_failures (suc b.consecutive))) [
  | inl e ↦
      let q : ltb b.consecutive config.max_consecutive_failures ≡ false = ground arith in
      rw (e, q) refl
  | inr e ↦
      let q : ltb b.consecutive config.max_consecutive_failures ≡ true = ground arith in
      let d : suc b.consecutive - 1 ≡ b.consecutive = omega arith in rw (e, q, d) refl
]

-- What a failure answers after any session: it is waited out exactly when, with the failures since
-- the last success, there are no more than the limit; the wait is the base delay doubled once for
-- each of those, up to the ceiling.
pub failed_after :
    (config : RunnerConfig) (steps : List Bool)
    → let n = trailing_failures 0 steps in
      (failed config (after_steps config steps new_backoff)).0 ≡ (
        if ltb n config.max_consecutive_failures
        then some (record { wait_ms = delay config n; consecutive = suc n })
        else none)
failed_after config steps =
    rw (← after_steps-consecutive config steps new_backoff)
      (failed_at config (after_steps config steps new_backoff))
