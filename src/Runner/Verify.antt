-- ===== src/Runner/Verify.antt =====
-- tooling/local-runner/src/verify.ts: local verification, scaled to the risk of a change. A command
-- changes the world, a type of its own, so `run` of exec.ts is a parameter that passes it on, and
-- `resolveOnPath` is one too. The time a command took is part of its result.
pub mod Rounds
pub mod Outcomes
use Prim.Native.String
use space_elysiajs_orpc.Prelude.{
  ℕ, ◌+◌, ◌-◌, ◌*◌, ◌/◌, show, String, Bool, true, false, Option, none, some, List, [], ◌∷◌, ◌++◌,
  map, eqb, any, not, is_empty, ◌&&◌, ◌||◌, ◌==◌, if◌then◌else◌, includes, filter, head?, concat,
  join, drop,
}
use space_elysiajs_orpc.Policy.{RiskLevel, LoopPolicy, TierStep, steps_for_risk}
use space_elysiajs_orpc.Glob.{matches_any_glob}
use space_elysiajs_orpc.Detect.{trim}
use space_elysiajs_orpc.Regexp.{size, text_drop}
use space_elysiajs_orpc.Runner.Redact.{redact}

pub data StepOutcome : Type 0 where
  passed failed not_applicable unavailable : StepOutcome

pub record StepResult : Type 0 where
  pub name : String
  pub outcome : StepOutcome
  pub ok : Bool
  pub duration_ms : ℕ
  pub output : String

pub record VerificationOutcome : Type 0 where
  pub ok : Bool
  pub risk : RiskLevel
  pub steps : List StepResult
  pub first_failure : Option StepResult
  pub unavailable : List String
  pub failed : List String

pub record VerifyOptions : Type 0 where
  pub risk : Option RiskLevel
  pub policy : Option LoopPolicy
  pub changed_files : Option (List String)
  pub only : Option (List String)

pub record RunResult : Type 0 where
  pub code : ℕ
  pub stdout : String
  pub stderr : String
  pub timed_out : Bool
  pub duration_ms : ℕ

-- How `run` of exec.ts ends: with a result, or by throwing where the command cannot be started.
pub data Exit : Type 0 where
  exited : RunResult → Exit
  not_started : String → Exit

-- How `verify` ends: it returns, or a command that it cannot start makes it throw.
pub data Verified : Type 0 where
  returned : VerificationOutcome → Verified
  rejected : String → Verified

abbrev fallback_step : String → ℕ → TierStep
fallback_step name minutes = record {
  name = name;
  command = "bun";
  args = "run" ∷ name ∷ [];
  when_changed = none;
  requires = none;
  requires_probe = none;
  timeout_minutes = minutes;
}

-- `VERIFICATION_STEPS` of config.ts.
abbrev pub verification_steps : List TierStep
verification_steps =
    fallback_step "lint" 10
    ∷ fallback_step "typecheck" 10
    ∷ fallback_step "test" 20
    ∷ fallback_step "build" 20
    ∷ []

abbrev pub risk_of : VerifyOptions → RiskLevel
risk_of options = elim options.risk [ none ↦ RiskLevel.low | some r ↦ r ]

-- The steps, by the depth to which tiers may inherit.
unfoldable pub tier_steps : ℕ → VerifyOptions → Option (List TierStep)
tier_steps depth options = elim options.policy [
  | none ↦ some verification_steps
  | some policy ↦ steps_for_risk policy depth (risk_of options)
]

abbrev is_failed : StepOutcome → Bool
is_failed o = elim o [ failed ↦ true | _ ↦ false ]

abbrev is_unavailable : StepOutcome → Bool
is_unavailable o = elim o [ unavailable ↦ true | _ ↦ false ]

-- `record`, before the result is pushed.
pub step_result : String → StepOutcome → ℕ → String → StepResult
step_result name outcome duration output = record {
  name = name;
  outcome = outcome;
  ok = not (is_failed outcome);
  duration_ms = duration;
  output = output;
}

-- `text.slice(-n)`
abbrev last_characters : ℕ → String → String
last_characters n text = text_drop (size text - n) text

-- `options.only !== undefined && !options.only.includes(step.name)`
abbrev pub is_left_out : VerifyOptions → TierStep → Bool
is_left_out options step = elim options.only [
  | none ↦ false
  | some names ↦ not (includes step.name names)
]

abbrev pub is_out_of_scope : VerifyOptions → TierStep → Bool
is_out_of_scope options step = elim step.when_changed [
  | none ↦ false
  | some patterns ↦ elim options.changed_files [
    | none ↦ false
    | some files ↦ not (any (matches_any_glob patterns) files)
  ]
]

-- `a || b` on texts.
abbrev or_text : String → String → String
or_text s t = if s == "" then t else s

module _ {W : Type 0} (exec : W → String → List String → ℕ → Exit × W)
    (which : String → Option String) where
  abbrev pub is_missing : TierStep → Bool
  is_missing step = elim step.requires [
    | none ↦ false
    | some tool ↦ elim (which tool) [ none ↦ true | some path ↦ false ]
  ]

  -- `await exec(command, args, { timeoutMs: 60_000 })` over a probe's words; `none` without a probe.
  abbrev pub probe : TierStep → W → Option Exit × W
  probe step w = elim step.requires_probe [
    | none ↦ (none, w)
    | some [] ↦ let (r, v) = exec w "undefined" [] 60000 in (some r, v)
    | some (command ∷ args) ↦ let (r, v) = exec w command args 60000 in (some r, v)
  ]

  pub missing_text : TierStep → String
  missing_text step = elim step.requires [
    | none ↦ ""
    | some tool ↦ concat ("`" ∷ tool ∷ "` is not on PATH, so this step could not run." ∷ [])
  ]

  pub probe_text : TierStep → RunResult → String
  probe_text step result = elim step.requires_probe [
    | none ↦ ""
    | some words ↦ concat (
        "`"
        ∷ join " " words
        ∷ "` failed, so this step could not run: "
        ∷ last_characters 500 (redact (or_text (trim result.stderr) (trim result.stdout)))
        ∷ [])
  ]

  -- What the command of a step came to.
  pub command_result : TierStep → RunResult → StepResult
  unfolding step_result
  command_result step result =
      step_result step.name (if eqb result.code 0 && not result.timed_out then passed else failed)
        result.duration_ms
        (last_characters 6000 (redact (trim (concat (result.stdout ∷ "\n" ∷ result.stderr ∷ [])))))

  -- One round of the loop: what is recorded, the world after it, whether the loop ends here, and the
  -- message that is thrown, if one is.
  pub record Round : Type 0 where
    pub recorded : Option StepResult
    pub world : W
    pub stops : Bool
    pub thrown : Option String

  abbrev round_of : Option StepResult → W → Bool → Round
  round_of recorded world stops = record {
    recorded = recorded;
    world = world;
    stops = stops;
    thrown = none;
  }

  abbrev pub throws : String → W → Round
  throws message world = record {
    recorded = none;
    world = world;
    stops = true;
    thrown = some message;
  }

  pub by_exit : TierStep → Exit → W → Round
  unfolding command_result
  by_exit step (not_started message) v = throws message v
  by_exit step (exited result) v =
      round_of (some (command_result step result)) v (not (eqb result.code 0) || result.timed_out)

  pub run_command : TierStep → W → Round
  unfolding by_exit
  run_command step w =
      let (exit, v) = exec w step.command step.args (step.timeout_minutes * 60000) in
      by_exit step exit v

  pub run_step : VerifyOptions → TierStep → W → Round
  unfolding step_result missing_text probe_text run_command
  run_step options step w =
      let (probed, v) = probe step w in
      if is_left_out options step
      then round_of none w false
      else if is_out_of_scope options step
      then round_of (some (step_result step.name not_applicable 0 "")) w false
      else if is_missing step
      then round_of (some (step_result step.name unavailable 0 (missing_text step))) w false
      else elim probed [
        | none ↦ run_command step v
        | some (not_started message) ↦ throws message v
        | some (exited p) ↦
            if eqb p.code 0
            then run_command step v
            else round_of (some (step_result step.name unavailable 0 (probe_text step p))) v false
      ]

  abbrev pub recorded_first : Option StepResult → List StepResult → List StepResult
  recorded_first none later = later
  recorded_first (some r) later = r ∷ later

  -- The loop, from a step on: the results, what is thrown, and the world.
  pub run_steps : VerifyOptions → List TierStep → W → List StepResult × Option String × W
  unfolding run_step
  run_steps options [] w = ([], none, w)
  run_steps options (step ∷ rest) w =
      let round = run_step options step w in
      let later = run_steps options rest round.world in
      if round.stops
      then (recorded_first round.recorded [], round.thrown, round.world)
      else (recorded_first round.recorded later.0, later.1, later.2)

  pub outcome_of : VerifyOptions → List StepResult → VerificationOutcome
  outcome_of options steps =
      let failures = filter (λ (s : StepResult). is_failed s.outcome) steps in
      let missing = filter (λ (s : StepResult). is_unavailable s.outcome) steps in
      record {
        ok = is_empty failures && is_empty missing;
        risk = risk_of options;
        steps = steps;
        first_failure = head? failures;
        unavailable = map (λ (s : StepResult). s.name) missing;
        failed = map (λ (s : StepResult). s.name) failures;
      }

  abbrev pub ended_by : VerifyOptions → List StepResult → Option String → Verified
  ended_by options results none = returned (outcome_of options results)
  ended_by options results (some message) = rejected message

  unfoldable pub verify : ℕ → VerifyOptions → W → Option (Verified × W)
  unfolding run_steps outcome_of
  verify depth options w = elim (tier_steps depth options) [
    | none ↦ none
    | some steps ↦
        let (results, thrown, v) = run_steps options steps w in
        some (ended_by options results thrown, v)
  ]

-- `MARK[step.outcome]`
abbrev mark : StepOutcome → String
mark passed = "pass"
mark failed = "FAIL"
mark not_applicable = "n/a "
mark unavailable = "SKIP"

abbrev risk_name : RiskLevel → String
risk_name RiskLevel.low = "low"
risk_name RiskLevel.medium = "medium"
risk_name RiskLevel.high = "high"

abbrev is_passed : StepOutcome → Bool
is_passed o = elim o [ passed ↦ true | _ ↦ false ]

-- `Math.round(step.durationMs / 1000)`
duration_text : StepResult → String
duration_text step =
    if is_passed step.outcome || is_failed step.outcome
    then concat (" (" ∷ show ((step.duration_ms + 500) / 1000) ∷ "s)" ∷ [])
    else ""

step_line : StepResult → String
unfolding duration_text
step_line step =
    concat ("- " ∷ mark step.outcome ∷ " `" ∷ step.name ∷ "`" ∷ duration_text step ∷ [])

unfoldable pub format_verification : VerificationOutcome → String
unfolding step_line
format_verification outcome = join "\n" (
    (concat ("Verification for `" ∷ risk_name outcome.risk ∷ "` risk:" ∷ []) ∷ "" ∷ [])
    ++ (map step_line outcome.steps
        ++ ((if is_empty outcome.unavailable
              then []
              else ""
                ∷ concat (
                    "**Could not run:** "
                    ∷ join ", " outcome.unavailable
                    ∷ ". An unrunnable check is not a passing one, so this change cannot merge until the tooling is available."
                    ∷ [])
                ∷ [])
            ++ (elim outcome.first_failure [
              | none ↦ []
              | some failure ↦
                  ""
                  ∷ concat ("<details><summary>" ∷ failure.name ∷ " output</summary>" ∷ [])
                  ∷ ""
                  ∷ "```"
                  ∷ last_characters 4000 failure.output
                  ∷ "```"
                  ∷ "</details>"
                  ∷ []
            ]))))
