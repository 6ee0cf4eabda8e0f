-- ===== src/Tests/Verdicts.antt =====
-- Witnesses for the reviews, their aggregation and the merge gate.
use space_elysiajs_orpc.Prelude.{
  ◌≤◌, ◌<◌, ◌⊎◌, ◌↔◌, Bool, true, false, some, List, [], ◌∷◌, ◌≡◌, Memᴰ, refl, all, any,
}
use space_elysiajs_orpc.Policy.{RiskLevel, Severity, severity_order}
use space_elysiajs_orpc.Review.{
  Finding, ReviewStatus, approve, request_changes, Parsed, parse_review_result, merge_review,
  success, failure,
}
use space_elysiajs_orpc.Review.Merging.{merge_review_strict, strictness}
use space_elysiajs_orpc.Review.Validation.{parse_review_result-Answers, Answers}
use space_elysiajs_orpc.Aggregate.{aggregate_reviews, AggregateInput, dedupe}
use space_elysiajs_orpc.Aggregate.Spot.{spot, HasPlainPath, Apart}
use space_elysiajs_orpc.Review.Merging.{any_blocking}
use space_elysiajs_orpc.Aggregate.Dedupe.{dedupe_exact, any_blocking-dedupe}
use space_elysiajs_orpc.Aggregate.Verdict.{aggregate_reviews_exact, is_favourable, reports_blocked}
use space_elysiajs_orpc.Gate.{
  decide_merge, GateInput, auto_merge, changes_requested, human_approval_required,
  without_self_published_checks,
}
use space_elysiajs_orpc.Gate.Merging.{decide_merge-MayMerge, MayMerge}
use space_elysiajs_orpc.Gate.Outcomes.{dispatch_iff, human_approval_iff, self_published_ignored}
use space_elysiajs_orpc.Tests.{same, approval, objection, gate_sample}

decide_merge-MayMerge_example :
    ((decide_merge same gate_sample).decision ≡ auto_merge) ↔ MayMerge gate_sample
decide_merge-MayMerge_example = decide_merge-MayMerge same gate_sample

abbrev requested : GateInput
requested = record gate_sample { reviews = objection ∷ [] }

dispatch_iff_test :
    (((decide_merge same requested).should_dispatch_fix ≡ true)
      ↔ ((decide_merge same requested).decision ≡ changes_requested))
    × ((decide_merge same requested).decision ≡ changes_requested → 1 < 3)
dispatch_iff_test = dispatch_iff same requested

abbrev held : GateInput
held = record gate_sample { human_hold = some true }

human_approval_iff_test :
    (((decide_merge same held).decision ≡ human_approval_required) ↔ (
      (false ≡ false)
      × ((true ≡ true) ⊎ (false ≡ true) ⊎ ((true ≡ false) × (held.human_approvals ≡ 0)))))
    × ((risk : RiskLevel)
        → (decide_merge same (record held { risk = risk })).decision
          ≡ (decide_merge same held).decision)
human_approval_iff_test = human_approval_iff same held

self_published_ignored_test :
    decide_merge same (record gate_sample {
      required_checks = without_self_published_checks gate_sample.required_checks;
    })
    ≡ decide_merge same gate_sample
self_published_ignored_test = self_published_ignored same gate_sample

abbrev two_reviews : AggregateInput
two_reviews = record {
  reviews = approval ∷ objection ∷ [];
  required = 2;
  blocking_severity = Severity.high;
}

aggregate_reviews_exact_example :
    (((aggregate_reviews same two_reviews).status ≡ approve)
      ↔ ((2 ≤ 2) × (all (is_favourable Severity.high) two_reviews.reviews ≡ true)))
    × (((aggregate_reviews same two_reviews).status ≡ ReviewStatus.blocked)
        ↔ ((2 < 2) ⊎ (any reports_blocked two_reviews.reviews ≡ true)))
    × (((aggregate_reviews same two_reviews).status ≡ approve)
        ⊎ ((aggregate_reviews same two_reviews).status ≡ ReviewStatus.blocked)
        ⊎ ((aggregate_reviews same two_reviews).status ≡ request_changes))
aggregate_reviews_exact_example = aggregate_reviews_exact same two_reviews

abbrev raised : List Finding
raised = objection.findings

raised-HasPlainPath : (f : Finding) → Memᴰ f raised → HasPlainPath f
raised-HasPlainPath f (Memᴰ.head e) = rw e refl
raised-HasPlainPath f (Memᴰ.tail (Memᴰ.head e)) = rw e refl
raised-HasPlainPath f (Memᴰ.tail (Memᴰ.tail x)) = elim x [ ]

dedupe_exact_example :
    ((x : Finding) → Memᴰ x (dedupe same raised) → Memᴰ x raised)
    × ((f : Finding)
        → Memᴰ f raised
        → (g : Finding) × Memᴰ g (dedupe same raised)
          × (spot same g ≡ spot same f)
          × (severity_order f.severity ≤ severity_order g.severity))
    × Apart same (dedupe same raised)
dedupe_exact_example = dedupe_exact same raised raised-HasPlainPath

any_blocking-dedupe_test :
    any_blocking Severity.high (dedupe same raised) ≡ any_blocking Severity.high raised
any_blocking-dedupe_test = any_blocking-dedupe same Severity.high raised

merge_review_strict_test :
    (strictness approve ≤ strictness (merge_review approval raised Severity.high).status)
    × (((merge_review approval raised Severity.high).status ≡ approve) ↔ (
        (approve ≡ approve)
        × (any_blocking Severity.high raised ≡ false)
        × (any_blocking Severity.high approval.findings ≡ false)))
merge_review_strict_test = merge_review_strict approval raised Severity.high

abbrev schema : Bool → Parsed
schema ok = elim ok [
  | true ↦ success approval
  | false ↦ failure (record { path = ""; message = "Required" } ∷ [])
]

parse_review_result-Answers_example : Answers (schema false) (parse_review_result schema false)
parse_review_result-Answers_example = parse_review_result-Answers schema false
