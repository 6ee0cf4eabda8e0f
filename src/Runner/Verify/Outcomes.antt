-- ===== src/Runner/Verify/Outcomes.antt =====
-- When verification is passed, and where it ends.
use space_elysiajs_orpc.Prelude.{
  ℕ, ◌⊎◌, ◌↔◌, String, Bool, true, false, Option, none, some, List, [], ◌∷◌, ◌≡◌, refl, ap, arith,
  eqb, not, ◌&&◌, ◌||◌, Bool-cases, Option-cases, inl, inr, and_iff, not_iff, ◌∙◌, subst,
}
use space_elysiajs_orpc.Policy.{TierStep}
use space_elysiajs_orpc.Runner.Verify.{
  StepResult, VerifyOptions, RunResult, tier_steps, is_failed, is_left_out, is_out_of_scope,
  is_missing, probe, run_command, throws, Exit, exited, not_started, Verified, returned, rejected,
  ended_by, Round, run_step, run_steps, recorded_first, outcome_of, verify,
}
use space_elysiajs_orpc.Runner.Verify.Rounds.{
  clean, command_of, is_usable, Succeeds, goes, not_probed, Exit-cases, run_command-clean,
  run_command_stopped, run_command-world, run_command_thrown, run_command_quiet,
  run_step-records_failure, passed_over, unusable, commanded,
}

some_injective {ℓ} : {A : Type ℓ} {a b : A} → some a ≡ some b → a ≡ b
some_injective e = cc

-- Only the last result may have failed.
abbrev pub FailsLast : List StepResult → Type 0
FailsLast [] = Unit
FailsLast (r ∷ []) = Unit
FailsLast (r ∷ s ∷ rs) = (is_failed r.outcome ≡ false) × FailsLast (s ∷ rs)

FailsLast-cons :
    (r : StepResult) (rs : List StepResult)
    → is_failed r.outcome ≡ false
    → FailsLast rs
    → FailsLast (r ∷ rs)
FailsLast-cons r [] e h = tt
FailsLast-cons r (s ∷ rs) e h = (e, h)

module _ {W : Type 0} (exec : W → String → List String → ℕ → Exit × W)
    (which : String → Option String) where
  -- Each step in turn is not asked for, or it succeeds in the world that the ones before it left.
  abbrev pub Passes : VerifyOptions → List TierStep → W → Type 0
  Passes options [] w = Unit
  Passes options (step ∷ rest) w =
      (((is_left_out options step || is_out_of_scope options step) ≡ true) × Passes options rest w)
      ⊎ (((is_left_out options step || is_out_of_scope options step) ≡ false)
          × Succeeds exec which step w
          × Passes options rest (command_of exec which step w).1)

  -- Some command with this message could not be started.
  abbrev pub NotStarted : String → Type 0
  NotStarted message =
      (w : W) × (command : String) × (args : List String) × (timeout : ℕ) × ((exec w command args
          timeout).0
        ≡ not_started message)

  abbrev is_quiet : Option String → Bool
  is_quiet none = true
  is_quiet (some message) = false

  -- Nothing is thrown, and no result failed or is unavailable.
  abbrev good : (List StepResult × Option String × W) → Bool
  good (results, thrown, w) = clean results && is_quiet thrown

  -- A round that goes on leaves the rest to the world after it; one that stops is the last.
  run_steps_on :
      (options : VerifyOptions) (step : TierStep) (rest : List TierStep) (w : W)
      → (run_step exec which options step w).stops ≡ false
      → let later = run_steps exec which options rest (run_step exec which options step w).world in
        run_steps exec which options (step ∷ rest) w ≡ (
          recorded_first exec which (run_step exec which options step w).recorded later.0,
          later.1,
          later.2,
        )
  unfolding run_steps
  run_steps_on options step rest w e = rw e refl

  run_steps_stopped :
      (options : VerifyOptions) (step : TierStep) (rest : List TierStep) (w : W)
      → (run_step exec which options step w).stops ≡ true
      → let round = run_step exec which options step w in
        run_steps exec which options (step ∷ rest) w
        ≡ (recorded_first exec which round.recorded [], round.thrown, round.world)
  unfolding run_steps
  run_steps_stopped options step rest w e = rw e refl

  run_none :
      (options : VerifyOptions) (w : W)
      → (good (run_steps exec which options [] w) ≡ true) ↔ Passes options [] w
  unfolding run_steps
  run_none options w = (λ h. tt, λ h. refl)

  -- A round that throws is the last, and its step has not succeeded.
  thrown_last :
      (options : VerifyOptions) (step : TierStep) (rest : List TierStep) (w v : W)
      (message : String)
      → (is_left_out options step || is_out_of_scope options step) ≡ false
      → (Succeeds exec which step w → ⊥)
      → run_step exec which options step w ≡ throws exec which message v
      → (good (run_steps exec which options (step ∷ rest) w) ≡ true)
        ↔ Passes options (step ∷ rest) w
  thrown_last options step rest w v message kept bad at =
      rw
        (
          run_steps_stopped options step rest w (ap (λ (r : Round exec which). r.stops) at),
          at,
          kept,
        )
        (λ h. cc, λ h. elim h [ inl (e, p) ↦ cc | inr (e, s, p) ↦ elim (bad s) [ ] ])

  -- A step that is asked for and can run: its command decides.
  commanded-good :
      (options : VerifyOptions) (step : TierStep) (rest : List TierStep) (w : W)
      → (is_left_out options step || is_out_of_scope options step) ≡ false
      → is_missing exec which step ≡ false
      → is_usable exec which (probe exec which step w).0 ≡ true
      → run_step exec which options step w ≡ run_command exec which step (probe exec which step w).1
      → (result : RunResult) → (command_of exec which step w).0 ≡ exited result
      → ((good (run_steps exec which options rest (command_of exec which step w).1) ≡ true)
          ↔ Passes options rest (command_of exec which step w).1)
      → (good (run_steps exec which options (step ∷ rest) w) ≡ true)
        ↔ Passes options (step ∷ rest) w
  commanded-good options step rest w kept present usable at result exits ih =
      let stops = ap (λ (r : Round exec which). r.stops) at in
      elim (Bool-cases (eqb result.code 0 && not result.timed_out)) [
        | inl e ↦
            let (c, t) = (and_iff _ _).0 e in
            let late = (not_iff _).0 t in
            let rs = (run_steps exec which options rest (command_of exec which step w).1).0 in
            let (go, on) =
              run_command-clean exec which step (probe exec which step w).1 rs result exits c
                late in
            rw
              (
                run_steps_on options step rest w (stops ∙ go),
                at,
                run_command-world exec which step (probe exec which step w).1,
                on,
                kept,
              )
              (
                λ h. inr (
                  refl,
                  record {
                    present = present;
                    usable = usable;
                    result = result;
                    exits = exits;
                    exits_well = c;
                    in_time = late;
                  },
                  ih.0 h,
                ),
                λ h. elim h [ inl (e, p) ↦ cc | inr (e, s, p) ↦ ih.1 p ],
              )
        | inr e ↦
            let (stop, off) =
              run_command_stopped exec which step (probe exec which step w).1 [] result exits e in
            rw (run_steps_stopped options step rest w (stops ∙ stop), at, off, kept)
              (
                λ h. cc,
                λ h. elim h [
                  | inl (e, p) ↦ cc
                  | inr (e', s, p) ↦
                      let a = s.exits_well in
                      let b = s.in_time in
                      let same : result ≡ s.result = cc (exits, s.exits) in absurd (cc (e, a, b))
                ],
              )
      ]

  run_steps-good :
      (options : VerifyOptions) (steps : List TierStep) (w : W)
      → (good (run_steps exec which options steps w) ≡ true) ↔ Passes options steps w
  run_steps-good options [] w = run_none options w
  run_steps-good options (step ∷ rest) w =
      let later = run_steps exec which options rest (run_step exec which options step w).world in
      elim (goes exec which options step w) [
        | passed_over out same go on well ↦
            rw (run_steps_on options step rest w go, on later.0, same, out)
              (
                λ h. inl (refl, (run_steps-good options rest w).0 h),
                λ h. elim h [
                  | inl (e, p) ↦ (run_steps-good options rest w).1 p
                  | inr (e, s, p) ↦ cc
                ],
              )
        | unusable kept bad go off well ↦
            rw (run_steps_on options step rest w go, off later.0, kept)
              (λ h. cc, λ h. elim h [ inl (e, p) ↦ cc | inr (e, s, p) ↦ elim (bad s) [ ] ])
        | not_probed message kept e at ↦
            thrown_last options step rest w _ message kept (λ s. let q = rw e at s.usable in cc) at
        | commanded kept present usable at ↦ elim (Exit-cases (command_of exec which step w).0) [
          | inl (message, e) ↦
              thrown_last options step rest w _ message kept (λ s. let q = s.exits in cc)
                (at ∙ run_command_thrown exec which step (probe exec which step w).1 message e)
          | inr (result, e) ↦
              commanded-good options step rest w kept present usable at result e
                (run_steps-good options rest (command_of exec which step w).1)
        ]
      ]

  run_steps-FailsLast :
      (options : VerifyOptions) (steps : List TierStep) (w : W)
      → FailsLast (run_steps exec which options steps w).0
  unfolding run_steps
  run_steps-FailsLast options [] w = tt
  run_steps-FailsLast options (step ∷ rest) w =
      elim (Bool-cases (run_step exec which options step w).stops) [
        | inl e ↦ elim (Option-cases (run_step exec which options step w).recorded) [
          | inl n ↦ rw (e, n) tt
          | inr (r, n) ↦ rw (e, n) tt
        ]
        | inr e ↦ elim (Option-cases (run_step exec which options step w).recorded) [
          | inl n ↦ rw (e, n) (run_steps-FailsLast options rest _)
          | inr (r, n) ↦
              rw (e, n)
                (FailsLast-cons r _ (rw n at (run_step-records_failure exec which options step w e))
                  (run_steps-FailsLast options rest _))
        ]
      ]

  probe-NotStarted :
      (step : TierStep) (w : W) (message : String)
      → (probe exec which step w).0 ≡ some (not_started message)
      → NotStarted message
  probe-NotStarted step w message e = elim (Option-cases step.requires_probe) [
    | inl n ↦ let q = rw n at e in cc
    | inr ([], n) ↦ (w, "undefined", [], 60000, some_injective (rw n at e))
    | inr (command ∷ args, n) ↦ (w, command, args, 60000, some_injective (rw n at e))
  ]

  run_steps-none : (options : VerifyOptions) (w : W) → (run_steps exec which options [] w).1 ≡ none
  unfolding run_steps
  run_steps-none options w = refl

  -- What is thrown was thrown by a command.
  run_steps-NotStarted :
      (options : VerifyOptions) (steps : List TierStep) (w : W) (message : String)
      → (run_steps exec which options steps w).1 ≡ some message
      → NotStarted message
  run_steps-NotStarted options [] w message h = cc (h, run_steps-none options w)
  run_steps-NotStarted options (step ∷ rest) w message h = elim (goes exec which options step w) [
    | passed_over out same go on well ↦
        run_steps-NotStarted options rest _ message (rw (run_steps_on options step rest w go) at h)
    | unusable kept bad go off well ↦
        run_steps-NotStarted options rest _ message (rw (run_steps_on options step rest w go) at h)
    | not_probed m kept e at ↦
        let stops = ap (λ (r : Round exec which). r.stops) at in
        let same : m ≡ message =
          some_injective (rw (run_steps_stopped options step rest w stops, at) at h) in
        subst NotStarted same (probe-NotStarted step w m e)
    | commanded kept present usable at ↦ elim (Exit-cases (command_of exec which step w).0) [
      | inl (m, e) ↦
          let thrown = at ∙ run_command_thrown exec which step (probe exec which step w).1 m e in
          let stops = ap (λ (r : Round exec which). r.stops) thrown in
          let same : m ≡ message =
            some_injective (rw (run_steps_stopped options step rest w stops, thrown) at h) in
          subst NotStarted same (_, _, _, _, e)
      | inr (result, e) ↦ elim (Bool-cases (run_step exec which options step w).stops) [
        | inl stops ↦
            let quiet =
              ap (λ (r : Round exec which). r.thrown) at
              ∙ run_command_quiet exec which step (probe exec which step w).1 result e in
            cc (rw (run_steps_stopped options step rest w stops) at h, quiet)
        | inr go ↦
            run_steps-NotStarted options rest _ message
              (rw (run_steps_on options step rest w go) at h)
      ]
    ]
  ]

  -- What the end of a verification says of the steps.
  abbrev pub Answers : VerifyOptions → List TierStep → W → Verified → Type 0
  Answers options steps w (returned o) =
      ((o.ok ≡ true) ↔ Passes options steps w) × FailsLast o.steps
  Answers options steps w (rejected message) = (Passes options steps w → ⊥) × NotStarted message

  ended_by-Answers :
      (options : VerifyOptions) (steps : List TierStep) (w : W) (results : List StepResult)
      (thrown : Option String)
      → ((clean results && is_quiet thrown) ≡ true) ↔ Passes options steps w
      → FailsLast results
      → ((message : String) → thrown ≡ some message → NotStarted message)
      → Answers options steps w (ended_by exec which options results thrown)
  unfolding outcome_of
  ended_by-Answers options steps w results none iff last from =
      ((λ h. iff.0 (ground arith), λ p. ground (arith, iff.1 p)), last)
  ended_by-Answers options steps w results (some message) iff last from =
      (λ p. absurd (ground (arith, iff.1 p)), from message refl)

-- Verification of a change whose steps are found ends. Where it returns, the result is ok exactly
-- when each of those steps in turn is left out or touches nothing that changed, or else has its tool,
-- a successful probe and a command that exits with 0 in time; a step that cannot run is never counted
-- as passed; and among the recorded steps only the last may have failed. It throws only with the
-- message of a command that could not be started, and then not all of the steps pass so.
pub verify_exact :
    {W : Type 0} (exec : W → String → List String → ℕ → Exit × W) (which : String → Option String)
    (depth : ℕ) (options : VerifyOptions) (steps : List TierStep) (w : W)
    → tier_steps depth options ≡ some steps
    → (r : Verified) × (v : W) × (verify exec which depth options w ≡ some (r, v))
      × Answers exec which options steps w r
unfolding verify
verify_exact exec which depth options steps w e =
    let run = run_steps exec which options steps w in
    (
      ended_by exec which options run.0 run.1,
      run.2,
      rw (e, verify) refl,
      ended_by-Answers exec which options steps w run.0 run.1
          (run_steps-good exec which options steps w)
          (run_steps-FailsLast exec which options steps w)
          (run_steps-NotStarted exec which options steps w),
    )
