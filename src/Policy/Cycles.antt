-- ===== src/Policy/Cycles.antt =====
-- When the collection of a tier's steps ends.
use space_elysiajs_orpc.Prelude.{
  ℕ, zero, suc, ◌<◌, none, some, ◌≡◌, refl, sym, arith, ◌⊎◌, inl, inr, ◌≢◌, eqb, Bool-cases,
  Option-cases, List, [], ap,
}
use space_elysiajs_orpc.Policy.{
  RiskLevel, risk_order, TierStep, LoopPolicy, tier_of, Collected, add_steps, collect,
  steps_for_risk,
}
use space_elysiajs_orpc.Policy.Order.{risk_order-injective}

-- A tier inherits only from a lower tier, or names itself, which the code passes over.
abbrev pub IsDescending : LoopPolicy → Type 0
IsDescending policy =
    (level parent : RiskLevel)
    → (tier_of policy level).inherits ≡ some parent
    → (parent ≡ level) ⊎ (risk_order parent < risk_order level)

collect_total :
    (policy : LoopPolicy) (depth : ℕ) (level : RiskLevel) (c : Collected)
    → IsDescending policy
    → risk_order level < depth
    → (r : Collected) × (collect policy depth level c ≡ some r)
unfolding collect
collect_total policy zero level c d h = absurd (omega arith)
collect_total policy (suc depth) level c d h = elim (Option-cases (tier_of policy level).inherits) [
  | inl e ↦ (add_steps (tier_of policy level).steps c, rw e)
  | inr (parent, e) ↦ elim (Bool-cases (eqb (risk_order parent) (risk_order level))) [
    | inl q ↦ (add_steps (tier_of policy level).steps c, rw (e, q))
    | inr q ↦
        let (mid, k) =
          collect_total policy depth parent c d (ground (arith, d level parent e, ap risk_order)) in
        (add_steps (tier_of policy level).steps mid, rw (e, q, k))
  ]
]

-- Under a policy whose tiers inherit only from lower ones, three nested calls are enough at every
-- risk level: the steps are returned.
pub steps_for_risk_total :
    (policy : LoopPolicy) (risk : RiskLevel)
    → IsDescending policy
    → (steps : List TierStep) × (steps_for_risk policy 3 risk ≡ some steps)
unfolding steps_for_risk
steps_for_risk_total policy risk d =
    let (c, k) = collect_total policy 3 risk (record { seen = []; steps = [] }) d (ground arith) in
    (c.steps, rw k)

collect_climbs :
    (policy : LoopPolicy) (depth : ℕ) (level parent : RiskLevel) (c : Collected)
    → level ≢ parent
    → (tier_of policy level).inherits ≡ some parent
    → collect policy depth parent c ≡ none
    → collect policy (suc depth) level c ≡ none
unfolding collect
collect_climbs policy depth level parent c n e k =
    elim (Bool-cases (eqb (risk_order parent) (risk_order level))) [
      | inl q ↦ absurd (ground (arith, n, risk_order-injective level parent))
      | inr q ↦ rw (e, q, k)
    ]

collect_cycle :
    (policy : LoopPolicy) (depth : ℕ) (a b : RiskLevel) (c : Collected)
    → a ≢ b
    → (tier_of policy a).inherits ≡ some b
    → (tier_of policy b).inherits ≡ some a
    → collect policy depth a c ≡ none
unfolding collect
collect_cycle policy zero a b c n p q = refl
collect_cycle policy (suc depth) a b c n p q =
    collect_climbs policy depth a b c n p (collect_cycle policy depth b a c (λ e. n (sym e)) q p)

-- The schema accepts two tiers that inherit from one another; for these the recursion never ends,
-- however deep it goes.
pub steps_for_risk_cycle :
    (policy : LoopPolicy) (a b : RiskLevel)
    → a ≢ b
    → (tier_of policy a).inherits ≡ some b
    → (tier_of policy b).inherits ≡ some a
    → (depth : ℕ) → steps_for_risk policy depth a ≡ none
unfolding steps_for_risk
steps_for_risk_cycle policy a b n p q depth =
    rw (collect_cycle policy depth a b (record { seen = []; steps = [] }) n p q)
