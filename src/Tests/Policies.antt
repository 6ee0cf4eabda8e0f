-- ===== src/Tests/Policies.antt =====
-- Witnesses for the policy's tiers, its protections and the paths that it names.
use space_elysiajs_orpc.Prelude.{
  ◌↔◌, ◌≢◌, String, true, none, some, List, [], ◌∷◌, ◌≡◌, refl, ◌∙◌, arith, Memᴰ, includes,
  Distinct,
}
use space_elysiajs_orpc.Policy.{RiskLevel, LoopPolicy, TierStep, tier_of, steps_for_risk}
use space_elysiajs_orpc.Policy.Steps.{steps_for_risk_exact, names, Inherits}
use space_elysiajs_orpc.Policy.Cycles.{steps_for_risk_total, steps_for_risk_cycle, IsDescending}
use space_elysiajs_orpc.ControlPlane.{find_unsafe_workflow_changes}
use space_elysiajs_orpc.ControlPlane.Protections.{find_weakened_protections}
use space_elysiajs_orpc.ControlPlane.Protections.Weakening.{find_weakened_protections-Keeps, Keeps}
use space_elysiajs_orpc.ControlPlane.Protections.Gaps.{relaxed_not_found, relaxed}
use space_elysiajs_orpc.Glob.{matches_any_glob, matches_glob, normalise}
use space_elysiajs_orpc.Glob.Paths.{matches_any_glob_exact, Matches}
use space_elysiajs_orpc.Tests.{policy, policy_of, diff, step}

abbrev high_steps : List TierStep
high_steps = step "lint" ∷ step "shared" ∷ step "test" ∷ step "e2e" ∷ []

high_policy_steps : steps_for_risk policy 3 RiskLevel.high ≡ some high_steps
unfolding steps_for_risk
high_policy_steps = refl

steps_for_risk_exact_example :
    Distinct (names high_steps)
    × ((s : TierStep)
        → Memᴰ s high_steps
        → (other : RiskLevel) × Inherits policy RiskLevel.high other
          × Memᴰ s (tier_of policy other).steps)
    × ((other : RiskLevel) (s : TierStep)
        → Inherits policy RiskLevel.high other
        → Memᴰ s (tier_of policy other).steps
        → includes s.name (names high_steps) ≡ true)
steps_for_risk_exact_example =
    steps_for_risk_exact policy 3 RiskLevel.high high_steps high_policy_steps

policy-IsDescending : IsDescending policy
policy-IsDescending RiskLevel.low parent e = cc
policy-IsDescending RiskLevel.medium parent e = ground arith
policy-IsDescending RiskLevel.high parent e = ground arith

steps_for_risk_total_example :
    (steps : List TierStep) × (steps_for_risk policy 3 RiskLevel.high ≡ some steps)
steps_for_risk_total_example = steps_for_risk_total policy RiskLevel.high policy-IsDescending

abbrev cyclic : LoopPolicy
cyclic = policy_of 3 (some RiskLevel.medium)

low-ne-medium : RiskLevel.low ≢ RiskLevel.medium
low-ne-medium e = cc

steps_for_risk_cycle_example : steps_for_risk cyclic 50 RiskLevel.low ≡ none
steps_for_risk_cycle_example =
    steps_for_risk_cycle cyclic RiskLevel.low RiskLevel.medium low-ne-medium refl refl 50

abbrev lowered : LoopPolicy
lowered = relaxed policy policy.risk.escalations policy.control_plane

relaxed_not_found_example :
    find_weakened_protections (record { base = policy; head = lowered; diff = diff })
    ≡ find_unsafe_workflow_changes diff
relaxed_not_found_example =
    relaxed_not_found policy policy.risk.escalations policy.control_plane diff

no_workflow_change : find_unsafe_workflow_changes diff ≡ []
unfolding find_unsafe_workflow_changes matches_any_glob matches_glob normalise
no_workflow_change = refl

lowered_not_found :
    find_weakened_protections (record { base = policy; head = lowered; diff = diff }) ≡ []
lowered_not_found =
    relaxed_not_found policy policy.risk.escalations policy.control_plane diff ∙ no_workflow_change

find_weakened_protections-Keeps_example :
    Keeps policy lowered × (find_unsafe_workflow_changes diff ≡ [])
find_weakened_protections-Keeps_example =
    find_weakened_protections-Keeps (record { base = policy; head = lowered; diff = diff })
      lowered_not_found

matches_any_glob_exact_example :
    (matches_any_glob ("docs/**" ∷ "*.md" ∷ []) "./docs/a/b.txt" ≡ true) ↔ (
      (p : String) × Memᴰ p ("docs/**" ∷ "*.md" ∷ [])
      × Matches (normalise p) (normalise "./docs/a/b.txt"))
matches_any_glob_exact_example = matches_any_glob_exact ("docs/**" ∷ "*.md" ∷ []) "./docs/a/b.txt"
