-- ===== src/Risk/Monotone.antt =====
-- The level only ever moves up.
use space_elysiajs_orpc.Prelude.{
  ◌≤◌, String, Bool, true, none, some, List, [], ◌∷◌, ◌++◌, Memᴰ, ◌≡◌, refl, sym, ap, ◌∙◌, arith,
  inl, inr, max, Bool-cases, Option-cases, is_empty-filter, any, if◌then◌else◌,
}
use space_elysiajs_orpc.Policy.{RiskLevel, risk_order, PathRule, LoopPolicy}
use space_elysiajs_orpc.Policy.Order.{risk_order-max_risk, max_risk_left, max_risk_right}
use space_elysiajs_orpc.Glob.{matches_any_glob}
use space_elysiajs_orpc.Diff.{DiffFile, PullRequestDiff}
use space_elysiajs_orpc.ControlPlane.{assess_control_plane, stricter_risk}
use space_elysiajs_orpc.Risk.{
  RiskInput, risk_label, label_risk, escalations, path_reasons, label_reasons, classify_risk,
  classify_risk_monotonic,
}
use space_elysiajs_orpc.Risk.Levels.{top, raise-eq-max_top, top-append}

-- A rule's files changed.
abbrev pub touches : List DiffFile → PathRule → Bool
touches files rule = any (λ (f : DiffFile). matches_any_glob rule.patterns f.path) files

path_reasons_floor :
    (files : List DiffFile) (rules : List PathRule) (rule : PathRule)
    → Memᴰ rule rules
    → touches files rule ≡ true
    → risk_order rule.risk ≤ risk_order (top (path_reasons files rules))
unfolding path_reasons
path_reasons_floor files [] rule m h = elim m [ ]
path_reasons_floor files (r ∷ rules) rule (Memᴰ.head q) h = ground (
  arith,
  ap (λ (x : PathRule). risk_order x.risk) q,
  ap (touches files) q,
  is_empty-filter (λ (f : DiffFile). matches_any_glob r.patterns f.path) files,
  max_risk_left r.risk (top (path_reasons files rules)),
)
path_reasons_floor files (r ∷ rules) rule (Memᴰ.tail m) h = ground (
  arith,
  path_reasons_floor files rules rule m h,
  max_risk_right r.risk (top (path_reasons files rules)),
)

label_reasons_floor :
    (labels : List String) (label : String) (r : RiskLevel)
    → Memᴰ label labels
    → label_risk label ≡ some r
    → risk_order r ≤ risk_order (top (label_reasons labels))
unfolding label_reasons
label_reasons_floor [] label r m h = elim m [ ]
label_reasons_floor (l ∷ labels) label r (Memᴰ.head q) h =
    let e : label_risk l ≡ some r = ap label_risk (sym q) ∙ h in
    rw (e, label_reasons) (max_risk_left r (top (label_reasons labels)))
label_reasons_floor (l ∷ labels) label r (Memᴰ.tail m) h = elim (Option-cases (label_risk l)) [
  | inl e ↦ rw (e, label_reasons) (label_reasons_floor labels label r m h)
  | inr (d, e) ↦
      rw (e, label_reasons)
        (omega (
          arith,
          label_reasons_floor labels label r m h,
          max_risk_right d (top (label_reasons labels)),
        ))
]

label_reasons-append :
    (xs ys : List String) → label_reasons (xs ++ ys) ≡ label_reasons xs ++ label_reasons ys
unfolding label_reasons
label_reasons-append [] ys = refl
label_reasons-append (x ∷ xs) ys = elim (Option-cases (label_risk x)) [
  | inl e ↦ rw (e, label_reasons) (label_reasons-append xs ys)
  | inr (d, e) ↦
      rw (e, label_reasons)
        (ap (λ l. record { risk = d; detail = risk_label x } ∷ l) (label_reasons-append xs ys))
]

module _ (locale_le : String → String → Bool) (signals : String → String → Bool) where
  -- The parts from which the level is computed.
  risk_order-classify_risk :
      (input : RiskInput)
      → let a = assess_control_plane signals input.diff input.policy in
        risk_order (classify_risk locale_le signals input).risk
        ≡ max (risk_order input.policy.risk.default) (
            max (risk_order (top (path_reasons input.diff.files input.policy.risk.paths))) (
              max (risk_order (top (label_reasons input.labels))) (
                max
                  (risk_order (top (escalations locale_le signals input)))
                  (if a.affected then 2 else 0))))
  unfolding classify_risk
  risk_order-classify_risk input =
      let a = assess_control_plane signals input.diff input.policy in
      elim (Bool-cases a.affected) [
        | inl e ↦ rw e (simp (raise-eq-max_top, risk_order-max_risk) (omega arith))
        | inr e ↦ rw e (simp (raise-eq-max_top, risk_order-max_risk) (omega arith))
      ]

  -- The level is at least the policy's default, at least the level of each path rule that a changed
  -- file matches, and at least the level that each label declares; and a change that reaches the
  -- control plane is high.
  pub classify_risk_floor :
      (input : RiskInput)
      → let risk = (classify_risk locale_le signals input).risk in
        (risk_order input.policy.risk.default ≤ risk_order risk)
        × ((rule : PathRule)
            → Memᴰ rule input.policy.risk.paths
            → touches input.diff.files rule ≡ true
            → risk_order rule.risk ≤ risk_order risk)
        × ((label : String) (declared : RiskLevel)
            → Memᴰ label input.labels
            → label_risk label ≡ some declared
            → risk_order declared ≤ risk_order risk)
        × ((assess_control_plane signals input.diff input.policy).affected ≡ true
            → 2 ≤ risk_order risk)
  classify_risk_floor input =
      let e = risk_order-classify_risk input in
      (
        omega (arith, e),
        λ rule m t.
            omega (arith, e, path_reasons_floor input.diff.files input.policy.risk.paths rule m t),
        λ label declared m t. omega (arith, e, label_reasons_floor input.labels label declared m t),
        λ a. ground (arith, e),
      )

  escalations_of_labels :
      (input : RiskInput) (labels : List String)
      → escalations locale_le signals (record input { labels = labels })
        ≡ escalations locale_le signals input
  unfolding escalations
  escalations_of_labels input labels = refl

  -- Further labels never lower the level.
  pub more_labels :
      (input : RiskInput) (extra : List String)
      → risk_order (classify_risk locale_le signals input).risk
        ≤ risk_order
            (classify_risk locale_le signals (record input { labels = input.labels ++ extra })).risk
  more_labels input extra =
      let more = record input { labels = input.labels ++ extra } in
      ground (
        arith,
        risk_order-classify_risk input,
        risk_order-classify_risk more,
        escalations_of_labels input more.labels,
        ap top (label_reasons-append input.labels extra),
        top-append (label_reasons input.labels) (label_reasons extra),
        max_risk_left (top (label_reasons input.labels)) (top (label_reasons extra)),
      )

  -- A pull request cannot lower its own level: with or without a proposed policy it is at least the
  -- level under the policy in force; and it is exactly the higher of the levels under the two.
  pub classify_risk_monotonic-max :
      (diff : PullRequestDiff) (labels : List String) (base head : LoopPolicy)
      → let under = λ (p : LoopPolicy).
        risk_order
          (classify_risk locale_le signals
            (record { diff = diff; labels = labels; policy = p })).risk in
        (under base
          ≤ risk_order (classify_risk_monotonic locale_le signals diff labels base none).risk)
        × (risk_order (classify_risk_monotonic locale_le signals diff labels base (some head)).risk
            ≡ max (under base) (under head))
  unfolding classify_risk_monotonic stricter_risk
  classify_risk_monotonic-max diff labels base head = (omega arith, ground arith)
