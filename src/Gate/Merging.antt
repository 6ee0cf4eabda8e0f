-- ===== src/Gate/Merging.antt =====
-- When a pull request merges without a person.
use space_elysiajs_orpc.Prelude.{
  ◌≤◌, ◌<◌, String, true, false, List, [], ◌∷◌, ◌≡◌, ◌↔◌, ◌⊎◌, inl, inr, arith, all, length, All,
  is_empty, refl,
}
use space_elysiajs_orpc.Review.{approve}
use space_elysiajs_orpc.Aggregate.Verdict.{is_favourable, aggregate_reviews-eq-approve_iff}
use space_elysiajs_orpc.Gate.{
  GateInput, auto_merge, observe, without_self_published_checks, required_check_states, or_nil,
  or_false, unavailable_of, failed_of, aggregate_of, decide_merge,
}
use space_elysiajs_orpc.Gate.Checks.{HasPassed, failing_in, pending_in, passed_iff}

-- Everything that an automatic merge rests on, stated of the observed facts.
pub record MayMerge (input : GateInput) : Type 0 where
  pub not_draft : input.is_draft ≡ false
  pub not_held : or_false input.human_hold ≡ false
  pub not_fork : input.is_fork ≡ false
  pub unweakened : (or_nil input.weakened_protections ≡ []) ⊎ (0 < input.human_approvals)
  pub enough_reviews : input.required_reviewers ≤ length input.reviews
  pub favourable : all (is_favourable input.blocking_severity) input.reviews ≡ true
  pub tier_ran : unavailable_of input.tier_verification ≡ []
  pub tier_passed : failed_of input.tier_verification ≡ []
  pub checks_passed :
      All
        (λ name. HasPassed (observe input.checks name).conclusion)
        (without_self_published_checks input.required_checks)

eq-nil_of_is_empty : {A : Type 0} (l : List A) → is_empty l ≡ true → l ≡ []
eq-nil_of_is_empty [] h = refl
eq-nil_of_is_empty (x ∷ l) h = cc

module _ (lower : String → String) (input : GateInput) where
  -- The same on the values that the code computes.
  abbrev Passes : Type 0
  Passes =
      (input.is_draft ≡ false)
      × (or_false input.human_hold ≡ false)
      × (input.is_fork ≡ false)
      × ((is_empty (or_nil input.weakened_protections) ≡ true) ⊎ (0 < input.human_approvals))
      × ((aggregate_of lower input).status ≡ approve)
      × (is_empty (unavailable_of input.tier_verification) ≡ true)
      × (is_empty (failed_of input.tier_verification) ≡ true)
      × (failing_in (required_check_states input) ≡ true)
      × (pending_in (required_check_states input) ≡ true)

  decide_merge-eq-auto_merge_iff : ((decide_merge lower input).decision ≡ auto_merge) ↔ Passes
  unfolding decide_merge
  decide_merge-eq-auto_merge_iff = ground arith

  -- The gate decides to merge automatically exactly when nothing objects: the pull request is no
  -- draft, not held by a person and not from a fork; it weakens no protection, or a person approved
  -- it; as many reviews as required arrived, and each approves with no finding at or above the
  -- blocking severity; every verification step ran and none failed; and every required check that
  -- the gate does not publish itself was reported as success, skipped or neutral.
  pub decide_merge-MayMerge : ((decide_merge lower input).decision ≡ auto_merge) ↔ MayMerge input
  unfolding required_check_states aggregate_of
  decide_merge-MayMerge = (
    λ h.
        let (draft, held, fork, weak, status, ran, passed, failing, pending) =
          decide_merge-eq-auto_merge_iff.0 h in
        let (enough, favourable) = (aggregate_reviews-eq-approve_iff lower _).0 status in
        record {
          not_draft = draft;
          not_held = held;
          not_fork = fork;
          unweakened = elim weak [
            | inl e ↦ inl (eq-nil_of_is_empty (or_nil input.weakened_protections) e)
            | inr p ↦ inr p
          ];
          enough_reviews = enough;
          favourable = favourable;
          tier_ran = eq-nil_of_is_empty (unavailable_of input.tier_verification) ran;
          tier_passed = eq-nil_of_is_empty (failed_of input.tier_verification) passed;
          checks_passed = (passed_iff input.checks _).0 (failing, pending);
        },
    λ m.
        let (failing, pending) = (passed_iff input.checks _).1 m.checks_passed in
        decide_merge-eq-auto_merge_iff.1 (
          m.not_draft,
          m.not_held,
          m.not_fork,
          elim m.unweakened [ inl e ↦ inl (rw e) | inr p ↦ inr p ],
          (aggregate_reviews-eq-approve_iff lower _).1 (m.enough_reviews, m.favourable),
          rw m.tier_ran,
          rw m.tier_passed,
          failing,
          pending,
        ),
  )
