-- ===== src/ControlPlane/Protections/Gaps.antt =====
-- Ways of weakening a policy that are not found.
use space_elysiajs_orpc.Prelude.{
  ℕ, String, none, List, [], ◌∷◌, map, Memᴰ, ◌≡◌, refl, inl, inr, arith, any, filter, includes,
  includes_iff, not, ◌==◌, ◌&&◌, Bool-cases, any-of_mem, eq_iff,
}
use space_elysiajs_orpc.Policy.{
  RiskLevel, Severity, PathRule, TierStep, Tier, Escalations, ControlPlane, LoopPolicy,
}
use space_elysiajs_orpc.Diff.{PullRequestDiff}
use space_elysiajs_orpc.ControlPlane.{find_unsafe_workflow_changes}
use space_elysiajs_orpc.ControlPlane.Protections.{
  removed_checks, fewer_reviewers, lost_steps, step_names, weaker_tier, raised_severity, same_risk,
  lost_patterns, lost_rules, more_rounds, find_weakened_protections,
}

abbrev pub to_low : PathRule → PathRule
to_low r = record r { risk = RiskLevel.low }

abbrev pub alone : Tier → Tier
alone t = record t { inherits = none }

-- The policy with every risk rule and the default lowered, and with any escalation limits and
-- control-plane patterns; no tier inherits the steps of another.
abbrev pub relaxed : LoopPolicy → Escalations → ControlPlane → LoopPolicy
relaxed base escalations control_plane = record base {
  risk = record {
    default = RiskLevel.low;
    paths = map to_low base.risk.paths;
    escalations = escalations;
  };
  tiers = record {
    low = alone base.tiers.low;
    medium = alone base.tiers.medium;
    high = alone base.tiers.high;
  };
  control_plane = control_plane;
}

removed_checks_self :
    (all rest : List String)
    → ((c : String) → Memᴰ c rest → Memᴰ c all)
    → removed_checks all rest ≡ []
unfolding removed_checks
removed_checks_self all [] n = refl
removed_checks_self all (c ∷ rest) n =
    rw ((includes_iff c all).1 (n c (Memᴰ.head refl)))
      (removed_checks_self all rest (λ d m. n d (Memᴰ.tail m)))

no_step_lost :
    (all rest : List TierStep)
    → ((s : TierStep) → Memᴰ s rest → Memᴰ s all)
    → filter (λ name. not (any (λ (s : TierStep). s.name == name) all)) (step_names rest) ≡ []
no_step_lost all [] n = refl
no_step_lost all (s ∷ rest) n =
    rw
      (any-of_mem (λ (t : TierStep). t.name == s.name) s all (n s (Memᴰ.head refl))
        ((eq_iff s.name s.name).1 refl))
      (no_step_lost all rest (λ t m. n t (Memᴰ.tail m)))

weaker_tier_alone :
    (base : LoopPolicy) (e : Escalations) (c : ControlPlane) (level : RiskLevel)
    → weaker_tier base (relaxed base e c) level ≡ []
unfolding weaker_tier fewer_reviewers lost_steps
weaker_tier_alone base e c RiskLevel.low =
    rw (no_step_lost base.tiers.low.steps base.tiers.low.steps (λ s m. m)) (ground arith)
weaker_tier_alone base e c RiskLevel.medium =
    rw (no_step_lost base.tiers.medium.steps base.tiers.medium.steps (λ s m. m)) (ground arith)
weaker_tier_alone base e c RiskLevel.high =
    rw (no_step_lost base.tiers.high.steps base.tiers.high.steps (λ s m. m)) (ground arith)

raised_severity_self : (s : Severity) → raised_severity s s ≡ []
unfolding raised_severity
raised_severity_self s = ground arith

more_rounds_self : (category : String) (n : ℕ) → more_rounds category n n ≡ []
unfolding more_rounds
more_rounds_self category n = ground arith

-- A pattern that some rule still names, at whatever level, is not reported.
lost_patterns_named :
    (head : List PathRule) (r : RiskLevel) (rule : PathRule) (ps : List String)
    → Memᴰ rule head
    → ((p : String) → Memᴰ p ps → Memᴰ p rule.patterns)
    → lost_patterns head r ps ≡ []
unfolding lost_patterns
lost_patterns_named head r rule [] m n = refl
lost_patterns_named head r rule (p ∷ ps) m n =
    let named = (includes_iff p rule.patterns).1 (n p (Memᴰ.head refl)) in
    let later = lost_patterns_named head r rule ps m (λ q k. n q (Memᴰ.tail k)) in
    elim (Bool-cases (same_risk rule.risk r)) [
      | inl e ↦
          rw
            (any-of_mem (λ (c : PathRule). same_risk c.risk r && includes p c.patterns) rule head m
              (ground arith))
            later
      | inr e ↦
          let q =
            any-of_mem (λ (c : PathRule). includes p c.patterns && not (same_risk c.risk r)) rule
              head m (ground arith) in
          ground arith
    ]

mem-map : {A B : Type 0} (f : A → B) (a : A) (l : List A) → Memᴰ a l → Memᴰ (f a) (map f l)
mem-map f a [] m = elim m [ ]
mem-map f a (x ∷ l) (Memᴰ.head q) = Memᴰ.head (λ i. f (q i))
mem-map f a (x ∷ l) (Memᴰ.tail m) = Memᴰ.tail (mem-map f a l m)

lost_rules_lowered :
    (all rest : List PathRule)
    → ((r : PathRule) → Memᴰ r rest → Memᴰ r all)
    → lost_rules (map to_low all) rest ≡ []
unfolding lost_rules
lost_rules_lowered all [] n = refl
lost_rules_lowered all (r ∷ rest) n =
    rw
      (lost_patterns_named (map to_low all) r.risk (to_low r) r.patterns
        (mem-map to_low r all (n r (Memᴰ.head refl))) (λ p m. m))
      (lost_rules_lowered all rest (λ s m. n s (Memᴰ.tail m)))

-- A proposal may lower every risk rule and the default to `low`, set any escalation limits and any
-- control-plane patterns, and stop the tiers from inheriting steps: whatever the base policy, nothing
-- of this is found, and the findings are those of the workflow files alone.
pub relaxed_not_found :
    (base : LoopPolicy) (e : Escalations) (c : ControlPlane) (diff : PullRequestDiff)
    → find_weakened_protections (record { base = base; head = relaxed base e c; diff = diff })
      ≡ find_unsafe_workflow_changes diff
unfolding find_weakened_protections
relaxed_not_found base e c diff = rw (
  removed_checks_self base.required_checks base.required_checks (λ c m. m),
  weaker_tier_alone base e c RiskLevel.low,
  weaker_tier_alone base e c RiskLevel.medium,
  weaker_tier_alone base e c RiskLevel.high,
  raised_severity_self base.blocking_severity,
  lost_rules_lowered base.risk.paths base.risk.paths (λ r m. m),
  more_rounds_self "coding fix rounds" base.retry.coding_fix_rounds,
  more_rounds_self "review fix rounds" base.retry.review_fix_rounds,
  more_rounds_self "CI fix rounds" base.retry.ci_fix_rounds,
)
