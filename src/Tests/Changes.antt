-- ===== src/Tests/Changes.antt =====
-- Witnesses for the risk of a change and its reach into the control plane.
use space_elysiajs_orpc.Prelude.{
  ℕ, ◌≤◌, max, String, true, none, some, [], ◌∷◌, ◌≡◌, refl, Memᴰ, any, not, is_empty, length,
}
use space_elysiajs_orpc.Policy.{RiskLevel, risk_order, PathRule, LoopPolicy}
use space_elysiajs_orpc.Risk.{classify_risk, classify_risk_monotonic, RiskInput, label_risk}
use space_elysiajs_orpc.Risk.Levels.{classify_risk-eq-top, top}
use space_elysiajs_orpc.Risk.Monotone.{
  touches, classify_risk_floor, more_labels, classify_risk_monotonic-max,
}
use space_elysiajs_orpc.ControlPlane.{assess_control_plane}
use space_elysiajs_orpc.ControlPlane.Assessment.{assess_control_plane_exact, reaches, is_policy}
use space_elysiajs_orpc.Diff.{parse_unified_diff, FileStatus}
use space_elysiajs_orpc.Regexp.{exec, group_of}
use space_elysiajs_orpc.Tests.{policy, policy_of, diff, in_order, no_signal}

abbrev risk_input : RiskInput
risk_input = record { diff = diff; labels = "risk:high" ∷ []; policy = policy }

abbrev level_of : RiskInput → ℕ
level_of input = risk_order (classify_risk in_order no_signal input).risk

classify_risk-eq-top_test :
    (classify_risk in_order no_signal risk_input).risk
    ≡ top (classify_risk in_order no_signal risk_input).reasons
classify_risk-eq-top_test = classify_risk-eq-top in_order no_signal risk_input

classify_risk_floor_example :
    (0 ≤ level_of risk_input)
    × ((rule : PathRule)
        → Memᴰ rule policy.risk.paths
        → touches diff.files rule ≡ true
        → risk_order rule.risk ≤ level_of risk_input)
    × ((label : String) (declared : RiskLevel)
        → Memᴰ label ("risk:high" ∷ [])
        → label_risk label ≡ some declared
        → risk_order declared ≤ level_of risk_input)
    × ((assess_control_plane no_signal diff policy).affected ≡ true → 2 ≤ level_of risk_input)
classify_risk_floor_example = classify_risk_floor in_order no_signal risk_input

more_labels_test :
    level_of risk_input ≤ level_of (record risk_input { labels = "risk:high" ∷ "risk:low" ∷ [] })
more_labels_test = more_labels in_order no_signal risk_input ("risk:low" ∷ [])

classify_risk_monotonic-max_example :
    let under = λ (p : LoopPolicy). level_of (record { diff = diff; labels = []; policy = p }) in
    (under policy
      ≤ risk_order (classify_risk_monotonic in_order no_signal diff [] policy none).risk)
    × (risk_order
          (classify_risk_monotonic in_order no_signal diff [] policy (some (policy_of 9 none))).risk
        ≡ max (under policy) (under (policy_of 9 none)))
classify_risk_monotonic-max_example =
    classify_risk_monotonic-max in_order no_signal diff [] policy (policy_of 9 none)

assess_control_plane_exact_test :
    let a = assess_control_plane no_signal diff policy in
    (a.affected ≡ any (reaches no_signal policy) diff.files)
    × (a.policy_bearing ≡ any (is_policy no_signal policy) diff.files)
    × (length a.files ≡ length a.reasons)
    × (a.affected ≡ not (is_empty a.reasons))
assess_control_plane_exact_test = assess_control_plane_exact no_signal policy diff

-- A header names the file; lines of content count, file headers and context do not.
parse_test :
    (parse_unified_diff
      "diff --git a/x.ts b/y.ts\nnew file mode\n+++ b/y\n+hello\n-bye\n ctx").files
    ≡ record {
      path = "y.ts";
      status = FileStatus.added;
      added_lines = "hello" ∷ [];
      removed_lines = "bye" ∷ [];
    }
      ∷ []
unfolding parse_unified_diff exec group_of
parse_test = refl

-- An added line whose text begins with two plus signs is taken for a file header.
dropped_line_test :
    (parse_unified_diff "diff --git a/x.sql b/x.sql\n--- DROP TABLE t\n+++i").files
    ≡ record { path = "x.sql"; status = FileStatus.modified; added_lines = []; removed_lines = [] }
      ∷ []
unfolding parse_unified_diff exec group_of
dropped_line_test = refl
