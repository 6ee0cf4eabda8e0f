-- ===== src/ControlPlane/Protections/Weakening.antt =====
-- What a proposal that is found to weaken nothing still has.
use space_elysiajs_orpc.Prelude.{
  ℕ, ◌*◌, ◌≤◌, String, true, List, [], ◌∷◌, ◌++◌, ◌≡◌, refl, ◌⊎◌, inl, inr, arith, any, filter,
  includes, is_empty, not, ◌==◌, All, Bool-cases,
}
use space_elysiajs_orpc.Policy.{
  RiskLevel, Severity, severity_order, PathRule, TierStep, Tier, LoopPolicy, tier_of,
  is_at_least_severity,
}
use space_elysiajs_orpc.Review.{Finding}
use space_elysiajs_orpc.ControlPlane.{find_unsafe_workflow_changes}
use space_elysiajs_orpc.ControlPlane.Protections.{
  ProtectionInput, removed_checks, fewer_reviewers, lost_steps, step_names, weaker_tier,
  raised_severity, still_there, downgraded, lost_patterns, lost_rules, more_rounds,
  find_weakened_protections,
}

pub append-eq-nil : (xs ys : List Finding) → xs ++ ys ≡ [] → (xs ≡ []) × (ys ≡ [])
append-eq-nil [] ys h = (refl, h)
append-eq-nil (x ∷ xs) ys h = cc

removed_checks_nil :
    (head base : List String)
    → removed_checks head base ≡ []
    → All (λ c. includes c head ≡ true) base
unfolding removed_checks
removed_checks_nil head [] h = tt
removed_checks_nil head (c ∷ base) h = elim (Bool-cases (includes c head)) [
  | inl e ↦ (e, removed_checks_nil head base (rw e at h))
  | inr e ↦ absurd (ground (arith, rw e at h))
]

kept_steps :
    (after : List TierStep) (names : List String)
    → is_empty (filter (λ name. not (any (λ (s : TierStep). s.name == name) after)) names) ≡ true
    → All (λ name. any (λ (s : TierStep). s.name == name) after ≡ true) names
kept_steps after [] h = tt
kept_steps after (n ∷ names) h = ground (arith, kept_steps after names)

-- A tier keeps its reviewers and the names of its steps.
pub record KeepsTier (before after : Tier) : Type 0 where
  pub reviewers : before.reviewers ≤ after.reviewers
  pub steps :
      All
        (λ name. any (λ (s : TierStep). s.name == name) after.steps ≡ true)
        (step_names before.steps)

weaker_tier_nil :
    (base head : LoopPolicy) (level : RiskLevel)
    → weaker_tier base head level ≡ []
    → KeepsTier (tier_of base level) (tier_of head level)
unfolding weaker_tier fewer_reviewers lost_steps
weaker_tier_nil base head level h =
    let (fewer, lost) =
      append-eq-nil (fewer_reviewers level (tier_of base level) (tier_of head level)) _ h in
    record {
      reviewers = ground arith;
      steps =
          kept_steps (tier_of head level).steps (step_names (tier_of base level).steps)
            (ground arith);
    }

lost_patterns_nil :
    (head : List PathRule) (risk : RiskLevel) (patterns : List String)
    → lost_patterns head risk patterns ≡ []
    → All (λ p. (still_there head risk p ≡ true) ⊎ (downgraded head risk p ≡ true)) patterns
unfolding lost_patterns
lost_patterns_nil head risk [] h = tt
lost_patterns_nil head risk (p ∷ rest) h = elim (Bool-cases (still_there head risk p)) [
  | inl e ↦ (inl e, lost_patterns_nil head risk rest (rw e at h))
  | inr e ↦ elim (Bool-cases (downgraded head risk p)) [
    | inl q ↦ (inr q, lost_patterns_nil head risk rest (rw (e, q) at h))
    | inr q ↦ absurd (ground (arith, rw (e, q) at h))
  ]
]

lost_rules_nil :
    (head base : List PathRule)
    → lost_rules head base ≡ []
    → All
        (λ (r : PathRule).
          All
            (λ p. (still_there head r.risk p ≡ true) ⊎ (downgraded head r.risk p ≡ true))
            r.patterns)
        base
unfolding lost_rules
lost_rules_nil head [] h = tt
lost_rules_nil head (r ∷ base) h =
    let (here, later) = append-eq-nil (lost_patterns head r.risk r.patterns) _ h in
    (lost_patterns_nil head r.risk r.patterns here, lost_rules_nil head base later)

raised_severity_nil :
    (base head : Severity)
    → raised_severity base head ≡ []
    → severity_order head ≤ severity_order base
unfolding raised_severity is_at_least_severity
raised_severity_nil base head h = ground arith

more_rounds_nil :
    (category : String) (before after : ℕ)
    → more_rounds category before after ≡ []
    → after ≤ before * 2
unfolding more_rounds
more_rounds_nil category before after h = ground arith

-- What a proposal keeps of the policy in force.
pub record Keeps (base head : LoopPolicy) : Type 0 where
  pub checks : All (λ c. includes c head.required_checks ≡ true) base.required_checks
  pub low : KeepsTier base.tiers.low head.tiers.low
  pub medium : KeepsTier base.tiers.medium head.tiers.medium
  pub high : KeepsTier base.tiers.high head.tiers.high
  pub severity : severity_order head.blocking_severity ≤ severity_order base.blocking_severity
  pub rules :
      All
        (λ (r : PathRule).
          All
            (λ p.
              (still_there head.risk.paths r.risk p ≡ true)
              ⊎ (downgraded head.risk.paths r.risk p ≡ true))
            r.patterns)
        base.risk.paths
  pub coding : head.retry.coding_fix_rounds ≤ base.retry.coding_fix_rounds * 2
  pub review : head.retry.review_fix_rounds ≤ base.retry.review_fix_rounds * 2
  pub ci : head.retry.ci_fix_rounds ≤ base.retry.ci_fix_rounds * 2

-- Where no finding is made, the proposal keeps every required check; in each tier at least as many
-- reviewers, and a step of the name of each of the tier's own steps; a blocking severity that is no
-- higher; each pattern of each risk rule in some rule, of the same level or of another; and none of
-- the fix-round limits for coding, review and CI is more than doubled. The diff then brings no unsafe construct into a workflow.
pub find_weakened_protections-Keeps :
    (input : ProtectionInput)
    → find_weakened_protections input ≡ []
    → Keeps input.base input.head × (find_unsafe_workflow_changes input.diff ≡ [])
unfolding find_weakened_protections
find_weakened_protections-Keeps input h =
    let (a, h1) = append-eq-nil _ _ h in
    let (b, h2) = append-eq-nil _ _ h1 in
    let (c, h3) = append-eq-nil _ _ h2 in
    let (d, h4) = append-eq-nil _ _ h3 in
    let (e, h5) = append-eq-nil _ _ h4 in
    let (f, h6) = append-eq-nil _ _ h5 in
    let (g, h7) = append-eq-nil _ _ h6 in
    let (i, h8) = append-eq-nil _ _ h7 in
    let (j, h9) = append-eq-nil _ _ h8 in
    (
      record {
        checks = removed_checks_nil _ _ a;
        low = weaker_tier_nil input.base input.head RiskLevel.low b;
        medium = weaker_tier_nil input.base input.head RiskLevel.medium c;
        high = weaker_tier_nil input.base input.head RiskLevel.high d;
        severity = raised_severity_nil _ _ e;
        rules = lost_rules_nil _ _ f;
        coding = more_rounds_nil _ _ _ g;
        review = more_rounds_nil _ _ _ i;
        ci = more_rounds_nil _ _ _ j;
      },
      h9,
    )
