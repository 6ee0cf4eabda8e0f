-- ===== src/Gate/Outcomes.antt =====
-- What the outcomes of the gate have in common.
use space_elysiajs_orpc.Prelude.{
  ◌<◌, String, Bool, true, false, List, [], ◌∷◌, ◌≡◌, refl, ◌↔◌, ◌⊎◌, arith, is_empty, filter, not,
  includes, Bool-cases, ap, inl, inr,
}
use space_elysiajs_orpc.Policy.{RiskLevel}
use space_elysiajs_orpc.Gate.{
  GateInput, human_approval_required, changes_requested, or_nil, or_false, self_published_checks,
  without_self_published_checks, required_check_states, aggregate_of, decide_merge,
}

filter_idempotent : {A : Type 0} (p : A → Bool) (l : List A) → filter p (filter p l) ≡ filter p l
filter_idempotent p [] = refl
filter_idempotent p (x ∷ l) = elim (Bool-cases (p x)) [
  | inl e ↦ rw (e, e) (ap (λ r. x ∷ r) (filter_idempotent p l))
  | inr e ↦ rw e (filter_idempotent p l)
]

module _ (lower : String → String) (input : GateInput) where
  -- A fix is dispatched exactly when changes are requested, and only while attempts are left: with
  -- the limit reached, nothing sends the pull request back to the coding agent.
  pub dispatch_iff :
      (((decide_merge lower input).should_dispatch_fix ≡ true)
        ↔ ((decide_merge lower input).decision ≡ changes_requested))
      × ((decide_merge lower input).decision ≡ changes_requested
          → input.review_attempts < input.max_review_attempts)
  unfolding decide_merge
  dispatch_iff = ground arith

  -- A person is asked for exactly when the pull request is no draft and is held by a person, comes
  -- from a fork, or weakens a protection that nobody approved. The risk level plays no part in any
  -- decision.
  pub human_approval_iff :
      (((decide_merge lower input).decision ≡ human_approval_required) ↔ (
        (input.is_draft ≡ false)
        × ((or_false input.human_hold ≡ true)
            ⊎ (input.is_fork ≡ true)
            ⊎ ((is_empty (or_nil input.weakened_protections) ≡ false)
                × (input.human_approvals ≡ 0)))))
      × ((risk : RiskLevel)
          → (decide_merge lower (record input { risk = risk })).decision
            ≡ (decide_merge lower input).decision)
  unfolding decide_merge required_check_states aggregate_of
  human_approval_iff = (ground arith, λ risk. ground arith)

  -- Naming the gate's own checks as required changes nothing: the outcome is that of the list
  -- without them, so the gate never waits for a check that it is about to publish.
  pub self_published_ignored :
      decide_merge lower
        (record input { required_checks = without_self_published_checks input.required_checks })
      ≡ decide_merge lower input
  unfolding decide_merge required_check_states aggregate_of without_self_published_checks
  self_published_ignored =
      rw (
        filter_idempotent (λ name. not (includes name self_published_checks)) input.required_checks)
