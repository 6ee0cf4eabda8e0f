-- ===== src/Policy/Order.antt =====
-- The orders on risk levels and severities.
use space_elysiajs_orpc.Prelude.{◌≤◌, ◌≡◌, ◌↔◌, true, arith, max}
use space_elysiajs_orpc.Policy.{
  RiskLevel, risk_order, max_risk, Severity, severity_order, is_at_least_severity,
}

pub risk_order-injective : (a b : RiskLevel) → risk_order a ≡ risk_order b → a ≡ b
risk_order-injective a b h = ground arith

pub risk_order-max_risk :
    (a b : RiskLevel) → risk_order (max_risk a b) ≡ max (risk_order a) (risk_order b)
unfolding max_risk
risk_order-max_risk a b = ground arith

pub max_risk_left : (a b : RiskLevel) → risk_order a ≤ risk_order (max_risk a b)
max_risk_left a b = omega (arith, risk_order-max_risk a b)

pub max_risk_right : (a b : RiskLevel) → risk_order b ≤ risk_order (max_risk a b)
max_risk_right a b = omega (arith, risk_order-max_risk a b)

pub max_risk_assoc : (a b c : RiskLevel) → max_risk (max_risk a b) c ≡ max_risk a (max_risk b c)
unfolding max_risk
max_risk_assoc a b c = ground arith

pub is_at_least_severity_iff :
    (a b : Severity) → (is_at_least_severity a b ≡ true) ↔ (severity_order b ≤ severity_order a)
unfolding is_at_least_severity
is_at_least_severity_iff a b = ground arith
