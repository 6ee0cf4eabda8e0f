-- ===== src/Risk/Levels.antt =====
-- The level is the maximum over the reasons.
use space_elysiajs_orpc.Prelude.{
  String, Bool, false, List, [], ◌∷◌, ◌++◌, ◌≡◌, sym, ap, ◌∙◌, arith, inl, inr, Bool-cases,
  is_empty,
}
use space_elysiajs_orpc.Policy.{RiskLevel, max_risk}
use space_elysiajs_orpc.Policy.Order.{max_risk_assoc}
use space_elysiajs_orpc.ControlPlane.{ControlReason, assess_control_plane}
use space_elysiajs_orpc.ControlPlane.Assessment.{assess_control_plane_exact}
use space_elysiajs_orpc.Risk.{RiskReason, RiskInput, raise, control_reasons_of, classify_risk}

-- The highest level among the reasons.
abbrev pub top : List RiskReason → RiskLevel
top [] = RiskLevel.low
top (r ∷ l) = max_risk r.risk (top l)

max_risk_low : (r : RiskLevel) → max_risk r RiskLevel.low ≡ r
unfolding max_risk
max_risk_low r = ground arith

pub raise-eq-max_top :
    (risk : RiskLevel) (l : List RiskReason) → raise risk l ≡ max_risk risk (top l)
unfolding raise
raise-eq-max_top risk [] = unfold max_risk in ground arith
raise-eq-max_top risk (r ∷ l) =
    raise-eq-max_top (max_risk risk r.risk) l ∙ max_risk_assoc risk r.risk (top l)

pub top-append : (xs ys : List RiskReason) → top (xs ++ ys) ≡ max_risk (top xs) (top ys)
top-append [] ys = unfold max_risk in ground arith
top-append (x ∷ xs) ys =
    ap (max_risk x.risk) (top-append xs ys) ∙ sym (max_risk_assoc x.risk (top xs) (top ys))

top-control :
    (l : List ControlReason) → is_empty l ≡ false → top (control_reasons_of l) ≡ RiskLevel.high
unfolding control_reasons_of max_risk
top-control [] h = cc
top-control (c ∷ l) h = ground arith

module _ (locale_le : String → String → Bool) (signals : String → String → Bool)
    (input : RiskInput) where
  -- The level of a change is the highest among the reasons that it reports: no reason is ignored, and
  -- nothing unreported raises it.
  pub classify_risk-eq-top :
      (classify_risk locale_le signals input).risk
      ≡ top (classify_risk locale_le signals input).reasons
  unfolding classify_risk
  classify_risk-eq-top =
      let assessed = assess_control_plane signals input.diff input.policy in
      elim (Bool-cases assessed.affected) [
        | inl a ↦
            let (_, _, _, some_reason) =
              assess_control_plane_exact signals input.policy input.diff in
            rw a (
              simp (
                raise-eq-max_top,
                top-append,
                top-control assessed.reasons (ground (arith, some_reason)),
                max_risk_assoc,
              ))
        | inr a ↦ rw a (simp (raise-eq-max_top, top-append, max_risk_assoc, max_risk_low))
      ]
