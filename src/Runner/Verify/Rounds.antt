-- ===== src/Runner/Verify/Rounds.antt =====
-- One round of verification: how it goes, and what it records.
use space_elysiajs_orpc.Prelude.{
  ℕ, ◌*◌, ◌⊎◌, String, Bool, true, false, Option, none, some, List, ◌≡◌, refl, arith, eqb, not,
  is_empty, ◌&&◌, ◌||◌, filter, Bool-cases, Option-cases, inl, inr,
}
use space_elysiajs_orpc.Policy.{TierStep}
use space_elysiajs_orpc.Runner.Verify.{
  StepResult, VerifyOptions, RunResult, Exit, exited, not_started, throws, is_failed,
  is_unavailable, is_left_out, is_out_of_scope, is_missing, probe, by_exit, run_command, run_step,
  recorded_first, step_result, command_result,
}

-- No result failed, and none is unavailable.
abbrev pub clean : List StepResult → Bool
clean rs =
    is_empty (filter (λ (s : StepResult). is_failed s.outcome) rs)
    && is_empty (filter (λ (s : StepResult). is_unavailable s.outcome) rs)

pub Exit-cases :
    (x : Exit)
    → ((message : String) × (x ≡ not_started message)) ⊎ ((r : RunResult) × (x ≡ exited r))
Exit-cases (not_started message) = inl (message, refl)
Exit-cases (exited r) = inr (r, refl)

module _ {W : Type 0} (exec : W → String → List String → ℕ → Exit × W)
    (which : String → Option String) where
  abbrev pub command_of : TierStep → W → Exit × W
  command_of step w =
      exec (probe exec which step w).1 step.command step.args (step.timeout_minutes * 60000)

  -- There is no probe, or it was started and exits with 0.
  abbrev pub is_usable : Option Exit → Bool
  is_usable none = true
  is_usable (some (exited p)) = eqb p.code 0
  is_usable (some (not_started message)) = false

  -- The step's tool is there, its probe succeeds, and so does its command, in time.
  pub record Succeeds (step : TierStep) (w : W) : Type 0 where
    pub present : is_missing exec which step ≡ false
    pub usable : is_usable (probe exec which step w).0 ≡ true
    pub result : RunResult
    pub exits : (command_of step w).0 ≡ exited result
    pub exits_well : eqb result.code 0 ≡ true
    pub in_time : result.timed_out ≡ false

  abbrev pub records_failure : Option StepResult → Bool
  records_failure none = false
  records_failure (some r) = is_failed r.outcome

  -- The four ways in which a round goes.
  pub data Goes (options : VerifyOptions) (step : TierStep) (w : W) : Type 0 where
    passed_over :
        (is_left_out options step || is_out_of_scope options step) ≡ true
        → (run_step exec which options step w).world ≡ w
        → (run_step exec which options step w).stops ≡ false
        → ((rs : List StepResult)
            → clean (recorded_first exec which (run_step exec which options step w).recorded rs)
              ≡ clean rs)
        → records_failure (run_step exec which options step w).recorded ≡ false
        → Goes options step w
    unusable :
        (is_left_out options step || is_out_of_scope options step) ≡ false
        → (Succeeds step w → ⊥)
        → (run_step exec which options step w).stops ≡ false
        → ((rs : List StepResult)
            → clean (recorded_first exec which (run_step exec which options step w).recorded rs)
              ≡ false)
        → records_failure (run_step exec which options step w).recorded ≡ false
        → Goes options step w
    not_probed :
        (message : String)
        → (is_left_out options step || is_out_of_scope options step) ≡ false
        → (probe exec which step w).0 ≡ some (not_started message)
        → run_step exec which options step w ≡ throws exec which message (probe exec which step w).1
        → Goes options step w
    commanded :
        (is_left_out options step || is_out_of_scope options step) ≡ false
        → is_missing exec which step ≡ false
        → is_usable (probe exec which step w).0 ≡ true
        → run_step exec which options step w
          ≡ run_command exec which step (probe exec which step w).1
        → Goes options step w

  pub goes : (options : VerifyOptions) (step : TierStep) (w : W) → Goes options step w
  unfolding run_step step_result
  goes options step w = elim (Bool-cases (is_left_out options step)) [
    | inl a ↦ passed_over (rw a refl) (rw a refl) (rw a refl) (λ rs. rw a refl) (rw a refl)
    | inr a ↦ elim (Bool-cases (is_out_of_scope options step)) [
      | inl b ↦
          passed_over (rw (a, b) refl) (rw (a, b) refl) (rw (a, b) refl) (λ rs. rw (a, b) refl)
            (rw (a, b) refl)
      | inr b ↦ elim (Bool-cases (is_missing exec which step)) [
        | inl c ↦
            unusable (rw (a, b) refl) (λ s. let q = s.present in cc) (rw (a, b, c) refl)
              (λ rs. rw (a, b, c) ground arith) (rw (a, b, c) refl)
        | inr c ↦ elim (Option-cases (probe exec which step w).0) [
          | inl d ↦ commanded (rw (a, b) refl) c (rw d refl) (rw (a, b, c, d) refl)
          | inr (not_started message, d) ↦
              not_probed message (rw (a, b) refl) d (rw (a, b, c, d) refl)
          | inr (exited p, d) ↦ elim (Bool-cases (eqb p.code 0)) [
            | inl e ↦ commanded (rw (a, b) refl) c (rw d e) (rw (a, b, c, d, e) refl)
            | inr e ↦
                unusable (rw (a, b) refl) (λ s. let q = rw d at s.usable in cc)
                  (rw (a, b, c, d, e) refl) (λ rs. rw (a, b, c, d, e) ground arith)
                  (rw (a, b, c, d, e) refl)
          ]
        ]
      ]
    ]
  ]

  pub run_command-world :
      (step : TierStep) (v : W)
      → (run_command exec which step v).world
        ≡ (exec v step.command step.args (step.timeout_minutes * 60000)).1
  unfolding run_command by_exit
  run_command-world step v =
      elim (Exit-cases (exec v step.command step.args (step.timeout_minutes * 60000)).0) [
        | inl (message, e) ↦ rw e refl
        | inr (result, e) ↦ rw e refl
      ]

  pub run_command_thrown :
      (step : TierStep) (v : W) (message : String)
      → (exec v step.command step.args (step.timeout_minutes * 60000)).0 ≡ not_started message
      → run_command exec which step v
        ≡ throws exec which message (exec v step.command step.args (step.timeout_minutes * 60000)).1
  unfolding run_command by_exit
  run_command_thrown step v message e = rw e refl

  pub run_command_quiet :
      (step : TierStep) (v : W) (result : RunResult)
      → (exec v step.command step.args (step.timeout_minutes * 60000)).0 ≡ exited result
      → (run_command exec which step v).thrown ≡ none
  unfolding run_command by_exit
  run_command_quiet step v result e = rw e refl

  -- A command that exits well in time is no stain, and one that does not ends the run as a failure.
  pub run_command-clean :
      (step : TierStep) (v : W) (rs : List StepResult)
      → (result : RunResult)
      → (exec v step.command step.args (step.timeout_minutes * 60000)).0 ≡ exited result
      → eqb result.code 0 ≡ true
      → result.timed_out ≡ false
      → ((run_command exec which step v).stops ≡ false)
        × (clean (recorded_first exec which (run_command exec which step v).recorded rs) ≡ clean rs)
  unfolding run_command by_exit command_result step_result
  run_command-clean step v rs result e c t = (rw (e, c, t) refl, rw (e, c, t) refl)

  pub run_command_stopped :
      (step : TierStep) (v : W) (rs : List StepResult)
      → (result : RunResult)
      → (exec v step.command step.args (step.timeout_minutes * 60000)).0 ≡ exited result
      → (eqb result.code 0 && not result.timed_out) ≡ false
      → ((run_command exec which step v).stops ≡ true)
        × (clean (recorded_first exec which (run_command exec which step v).recorded rs) ≡ false)
  unfolding run_command by_exit command_result step_result
  run_command_stopped step v rs result e h = (rw e (ground arith), rw (e, h) refl)

  run_command-records_failure :
      (step : TierStep) (v : W)
      → (run_command exec which step v).stops ≡ false
      → records_failure (run_command exec which step v).recorded ≡ false
  unfolding run_command by_exit command_result step_result
  run_command-records_failure step v h =
      elim (Exit-cases (exec v step.command step.args (step.timeout_minutes * 60000)).0) [
        | inl (message, e) ↦ rw e refl
        | inr (result, e) ↦ rw e (ground arith)
      ]

  -- What a round that goes on records has not failed.
  pub run_step-records_failure :
      (options : VerifyOptions) (step : TierStep) (w : W)
      → (run_step exec which options step w).stops ≡ false
      → records_failure (run_step exec which options step w).recorded ≡ false
  run_step-records_failure options step w go = elim (goes options step w) [
    | passed_over out same on clear well ↦ well
    | unusable kept bad on off well ↦ well
    | not_probed message kept e at ↦ rw at refl
    | commanded kept present usable at ↦
        rw at (run_command-records_failure step (probe exec which step w).1 (rw at at go))
  ]
