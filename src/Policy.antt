-- ===== src/Policy.antt =====
-- tooling/loop/src/policy.ts: the loop's policy document and the questions asked of it. A policy
-- value is the output of the schema, so every default is filled in.
pub mod Order
pub mod Steps
pub mod Cycles
use space_elysiajs_orpc.Prelude.{
  ℕ, zero, suc, String, Bool, Option, none, some, List, [], ◌∷◌, ◌++◌, leb, eqb, includes,
  if◌then◌else◌,
}
use mathlib.Core.Option

pub data RiskLevel : Type 0 where
  low medium high : RiskLevel

-- `RISK_ORDER`
abbrev pub risk_order : RiskLevel → ℕ
risk_order RiskLevel.low = 0
risk_order RiskLevel.medium = 1
risk_order RiskLevel.high = 2

unfoldable pub max_risk : RiskLevel → RiskLevel → RiskLevel
max_risk a b = if leb (risk_order b) (risk_order a) then a else b

unfoldable pub is_at_least_risk : RiskLevel → RiskLevel → Bool
is_at_least_risk value threshold = leb (risk_order threshold) (risk_order value)

pub data Severity : Type 0 where
  info low medium high critical : Severity

-- `SEVERITY_ORDER`
abbrev pub severity_order : Severity → ℕ
severity_order Severity.info = 0
severity_order Severity.low = 1
severity_order Severity.medium = 2
severity_order Severity.high = 3
severity_order Severity.critical = 4

unfoldable pub is_at_least_severity : Severity → Severity → Bool
is_at_least_severity value threshold = leb (severity_order threshold) (severity_order value)

pub record PathRule : Type 0 where
  pub risk : RiskLevel
  pub reason : String
  pub patterns : List String

pub record TierStep : Type 0 where
  pub name : String
  pub command : String
  pub args : List String
  pub when_changed : Option (List String)
  pub requires : Option String
  pub requires_probe : Option (List String)
  pub timeout_minutes : ℕ

pub record Tier : Type 0 where
  pub inherits : Option RiskLevel
  pub steps : List TierStep
  pub reviewers : ℕ

pub record Retry : Type 0 where
  pub max_review_attempts : ℕ
  pub coding_fix_rounds : ℕ
  pub review_fix_rounds : ℕ
  pub ci_fix_rounds : ℕ
  pub reviewer_retry_rounds : ℕ
  pub conflict_rounds : ℕ

pub record Escalations : Type 0 where
  pub max_changed_files : ℕ
  pub max_deleted_lines : ℕ
  pub destructive_migration_globs : List String
  pub public_contract_globs : List String

pub record RiskRules : Type 0 where
  pub default : RiskLevel
  pub paths : List PathRule
  pub escalations : Escalations

pub record Tiers : Type 0 where
  pub low : Tier
  pub medium : Tier
  pub high : Tier

pub record ControlPlane : Type 0 where
  pub patterns : List String
  pub policy_signals : List String
  pub always_policy : List String

pub record LoopPolicy : Type 0 where
  pub retry : Retry
  pub risk : RiskRules
  pub tiers : Tiers
  pub control_plane : ControlPlane
  pub blocking_severity : Severity
  pub required_checks : List String

-- `policy.tiers[risk]`
abbrev pub tier_of : LoopPolicy → RiskLevel → Tier
tier_of policy RiskLevel.low = policy.tiers.low
tier_of policy RiskLevel.medium = policy.tiers.medium
tier_of policy RiskLevel.high = policy.tiers.high

-- The variables of `stepsForRisk`.
pub record Collected : Type 0 where
  pub seen : List String
  pub steps : List TierStep

-- The body and the loop over `tier.steps`.
pub add_step : TierStep → Collected → Collected
add_step step c =
    if includes step.name c.seen
    then c
    else record { seen = c.seen ++ step.name ∷ []; steps = c.steps ++ step ∷ [] }

pub add_steps : List TierStep → Collected → Collected
add_steps [] c = c
add_steps (step ∷ rest) c = add_steps rest (add_step step c)

-- `none` stands for a recursion that goes deeper than the fuel: the source has no bound, and a
-- policy whose tiers inherit in a cycle exhausts its stack.
pub collect : LoopPolicy → ℕ → RiskLevel → Collected → Option Collected
collect policy zero level c = none
collect policy (suc depth) level c =
    Option.map (add_steps (tier_of policy level).steps) (elim (tier_of policy level).inherits [
      | none ↦ some c
      | some parent ↦
          let inherited = collect policy depth parent c in
          if eqb (risk_order parent) (risk_order level) then some c else inherited
    ])

unfoldable pub steps_for_risk : LoopPolicy → ℕ → RiskLevel → Option (List TierStep)
unfolding collect add_steps add_step
steps_for_risk policy depth risk =
    Option.map (λ (c : Collected). c.steps)
      (collect policy depth risk (record { seen = []; steps = [] }))

unfoldable pub reviewers_for_risk : LoopPolicy → RiskLevel → ℕ
reviewers_for_risk policy risk = (tier_of policy risk).reviewers
