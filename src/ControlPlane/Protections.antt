-- ===== src/ControlPlane/Protections.antt =====
-- `findWeakenedProtections` of tooling/loop/src/control-plane.ts: every way in which a proposed policy
-- is found weaker than the one in force.
pub mod Weakening
pub mod Gaps
use space_elysiajs_orpc.Prelude.{
  ℕ, ◌*◌, String, Bool, true, false, Option, none, some, List, [], ◌∷◌, ◌++◌, map, ltb, eqb, ◌&&◌,
  not, if◌then◌else◌, filter, any, includes, is_empty, ◌==◌, concat, join, show,
}
use space_elysiajs_orpc.Policy.{
  RiskLevel, risk_order, Severity, severity_order, is_at_least_severity, PathRule, TierStep, Tier,
  LoopPolicy, tier_of,
}
use space_elysiajs_orpc.Review.{Finding}
use space_elysiajs_orpc.Diff.{PullRequestDiff}
use space_elysiajs_orpc.ControlPlane.{find_unsafe_workflow_changes}

pub record ProtectionInput : Type 0 where
  pub base : LoopPolicy
  pub head : LoopPolicy
  pub diff : PullRequestDiff

abbrev risk_text : RiskLevel → String
risk_text RiskLevel.low = "low"
risk_text RiskLevel.medium = "medium"
risk_text RiskLevel.high = "high"

abbrev severity_text : Severity → String
severity_text Severity.info = "info"
severity_text Severity.low = "low"
severity_text Severity.medium = "medium"
severity_text Severity.high = "high"
severity_text Severity.critical = "critical"

-- `add`
abbrev weakening : Severity → String → String → Finding
weakening severity description action = record {
  severity = severity;
  file = some ".github/loop-policy.json";
  line = none;
  description = description;
  suggested_action = action;
  source = "control-plane";
  category = "policy";
}

-- The required checks that the proposal drops.
pub removed_checks : List String → List String → List Finding
removed_checks head [] = []
removed_checks head (check ∷ rest) =
    let later = removed_checks head rest in
    if includes check head
    then later
    else weakening Severity.critical
        (concat ("Required check `" ∷ check ∷ "` was removed from the policy." ∷ []))
        "Restore it, or raise a dedicated issue to retire the check with a stated reason."
      ∷ later

pub fewer_reviewers : RiskLevel → Tier → Tier → List Finding
unfolding show
fewer_reviewers level before after =
    if ltb after.reviewers before.reviewers
    then weakening Severity.critical
        (concat (
          "The `"
          ∷ risk_text level
          ∷ "` tier's independent review count dropped from "
          ∷ show before.reviewers
          ∷ " to "
          ∷ show after.reviewers
          ∷ "."
          ∷ []))
        "Restore the review count. Fewer independent reviewers is strictly less verification."
      ∷ []
    else []

abbrev pub step_names : List TierStep → List String
step_names = map (λ (s : TierStep). s.name)

pub lost_steps : RiskLevel → Tier → Tier → List Finding
lost_steps level before after =
    let removed =
      filter (λ name. not (any (λ (s : TierStep). s.name == name) after.steps))
        (step_names before.steps) in
    if is_empty removed
    then []
    else weakening Severity.critical
        (concat (
          "The `"
          ∷ risk_text level
          ∷ "` tier lost verification step(s): "
          ∷ join ", " removed
          ∷ "."
          ∷ []))
        "Restore the steps, or state in the issue why the check no longer applies."
      ∷ []

pub weaker_tier : LoopPolicy → LoopPolicy → RiskLevel → List Finding
unfolding fewer_reviewers lost_steps
weaker_tier base head level =
    fewer_reviewers level (tier_of base level) (tier_of head level)
    ++ lost_steps level (tier_of base level) (tier_of head level)

abbrev same_severity : Severity → Severity → Bool
same_severity a b = eqb (severity_order a) (severity_order b)

pub raised_severity : Severity → Severity → List Finding
raised_severity base head =
    if not (same_severity head base) && is_at_least_severity head base
    then weakening Severity.critical
        (concat (
          "Blocking severity was raised from `"
          ∷ severity_text base
          ∷ "` to `"
          ∷ severity_text head
          ∷ "`, so fewer findings now stop a merge."
          ∷ []))
        "Keep the base severity unless an issue explicitly asks for the change."
      ∷ []
    else []

abbrev same_risk : RiskLevel → RiskLevel → Bool
same_risk a b = eqb (risk_order a) (risk_order b)

abbrev pub still_there : List PathRule → RiskLevel → String → Bool
still_there head risk pattern' =
    any (λ (c : PathRule). same_risk c.risk risk && includes pattern' c.patterns) head

abbrev pub downgraded : List PathRule → RiskLevel → String → Bool
downgraded head risk pattern' =
    any (λ (c : PathRule). includes pattern' c.patterns && not (same_risk c.risk risk)) head

pub lost_patterns : List PathRule → RiskLevel → List String → List Finding
lost_patterns head risk [] = []
lost_patterns head risk (pattern' ∷ rest) =
    let later = lost_patterns head risk rest in
    if not (still_there head risk pattern') && not (downgraded head risk pattern')
    then weakening Severity.critical
        (concat (
          "Risk rule `"
          ∷ risk_text risk
          ∷ "` for `"
          ∷ pattern'
          ∷ "` was removed, so those files now fall to a lower tier."
          ∷ []))
        "Restore the rule, or move the pattern deliberately and say so in the issue."
      ∷ later
    else later

pub lost_rules : List PathRule → List PathRule → List Finding
unfolding lost_patterns
lost_rules head [] = []
lost_rules head (rule ∷ rest) = lost_patterns head rule.risk rule.patterns ++ lost_rules head rest

pub more_rounds : String → ℕ → ℕ → List Finding
more_rounds category before after =
    if ltb (before * 2) after
    then weakening Severity.medium
        (concat
          (category ∷ " more than doubled, from " ∷ show before ∷ " to " ∷ show after ∷ "." ∷ []))
        "Confirm the issue asked for this; it multiplies model usage per issue."
      ∷ []
    else []

unfoldable pub find_weakened_protections : ProtectionInput → List Finding
unfolding weaker_tier
find_weakened_protections input =
    let base = input.base in
    let head = input.head in
    removed_checks head.required_checks base.required_checks
    ++ (weaker_tier base head RiskLevel.low
        ++ (weaker_tier base head RiskLevel.medium
            ++ (weaker_tier base head RiskLevel.high
                ++ (raised_severity base.blocking_severity head.blocking_severity
                    ++ (lost_rules head.risk.paths base.risk.paths
                        ++ (more_rounds "coding fix rounds" base.retry.coding_fix_rounds
                              head.retry.coding_fix_rounds
                            ++ (more_rounds "review fix rounds" base.retry.review_fix_rounds
                                  head.retry.review_fix_rounds
                                ++ (more_rounds "CI fix rounds" base.retry.ci_fix_rounds
                                      head.retry.ci_fix_rounds
                                    ++ find_unsafe_workflow_changes input.diff))))))))
