-- ===== src/Evaluate/Safety.antt =====
-- What an automatic merge implies of everything that was collected.
use space_elysiajs_orpc.Prelude.{
  ℕ, ◌≤◌, ◌<◌, String, Bool, true, false, Option, none, some, List, [], ◌∷◌, ◌++◌, map, ◌≡◌, ◌⊎◌,
  inl, inr, refl, arith, ◌*◌, ◌≢◌, all, includes, length, All, and_iff, ap, suc, subst, length-map,
}
use space_elysiajs_orpc.Policy.{LoopPolicy, Severity, reviewers_for_risk}
use space_elysiajs_orpc.Review.{Finding, ReviewResult, merge_review}
use space_elysiajs_orpc.Review.Merging.{any_blocking, merge_review_strict}
use space_elysiajs_orpc.Diff.{PullRequestDiff}
use space_elysiajs_orpc.Checks.{run_deterministic_checks}
use space_elysiajs_orpc.ControlPlane.{find_unsafe_workflow_changes}
use space_elysiajs_orpc.ControlPlane.Protections.{ProtectionInput, find_weakened_protections}
use space_elysiajs_orpc.ControlPlane.Protections.Weakening.{
  append-eq-nil, Keeps, find_weakened_protections-Keeps,
}
use space_elysiajs_orpc.Aggregate.Verdict.{is_favourable}
use space_elysiajs_orpc.Gate.{auto_merge, observe, without_self_published_checks}
use space_elysiajs_orpc.Gate.Checks.{HasPassed}
use space_elysiajs_orpc.Gate.Merging.{decide_merge-MayMerge}
use space_elysiajs_orpc.Evaluate.{
  Evaluation, unavailable_review, written, agent_reviews, with_findings, weakened_by, labels_of,
  gate_input, evaluate,
}

-- A reviewer wrote a result that approves, with no finding at or above the blocking severity.
abbrev pub approves : Severity → Option ReviewResult → Bool
approves bar none = false
approves bar (some r) = is_favourable bar r

favourable_outputs :
    (bar : Severity) (l : List (Option ReviewResult))
    → all (is_favourable bar) (map written l) ≡ true
    → all (approves bar) l ≡ true
unfolding unavailable_review
favourable_outputs bar [] h = refl
favourable_outputs bar (none ∷ l) h = cc
favourable_outputs bar (some r ∷ l) h = ground (arith, favourable_outputs bar l)

module _ (deterministic : List Finding) (bar : Severity) where
  favourable_of_merged :
      (r : ReviewResult)
      → is_favourable bar (merge_review r deterministic bar) ≡ true
      → (any_blocking bar deterministic ≡ false) × (is_favourable bar r ≡ true)
  favourable_of_merged r h = ground (arith, merge_review_strict r deterministic bar)

  favourable_written :
      (o : Option ReviewResult) → is_favourable bar (written o) ≡ true → approves bar o ≡ true
  unfolding unavailable_review
  favourable_written none h = cc
  favourable_written (some r) h = h

  favourable_merged :
      (outputs : List (Option ReviewResult))
      → all (is_favourable bar) (with_findings deterministic bar (agent_reviews outputs)) ≡ true
      → (any_blocking bar deterministic ≡ false)
        × (all (approves bar) outputs ≡ true)
        × (length (with_findings deterministic bar (agent_reviews outputs)) ≡ length outputs)
  unfolding with_findings agent_reviews
  favourable_merged [] h =
      let absent = unavailable_review "no review agent is configured" in
      let (_, f) = favourable_of_merged absent (ground arith) in
      absurd (unfold unavailable_review in cc f)
  favourable_merged (o ∷ outputs) h =
      let (first, later) = (and_iff _ _).0 h in
      let (clean, f) = favourable_of_merged (written o) first in
      (
        clean,
        (and_iff _ _).1 (favourable_written o f, favourable_outputs bar outputs later),
        ap suc (length-map written outputs),
      )

-- What an automatic merge rests on, in terms of what was collected. Where a protection is weakened a
-- person has approved; otherwise the diff brings no unsafe construct into a workflow, and a proposed
-- policy keeps what `Keeps` lists.
pub record IsSound (locale_le : String → String → Bool) (required : ℕ) (e : Evaluation)
    : Type 0 where
  pub not_draft : e.context.is_draft ≡ false
  pub not_fork : e.context.is_fork ≡ false
  pub not_held : includes "needs:human" (e.context.labels ++ e.context.issue_labels) ≡ false
  pub checks_clean :
      any_blocking e.policy.blocking_severity (run_deterministic_checks locale_le e.diff) ≡ false
  pub enough : required ≤ length e.outputs
  pub approved : all (approves e.policy.blocking_severity) e.outputs ≡ true
  pub checks_passed :
      All
        (λ name. HasPassed (observe e.context.checks name).conclusion)
        (without_self_published_checks e.context.required_checks)
  pub protected :
      (0 < e.context.human_approvals)
      ⊎ ((find_unsafe_workflow_changes e.diff ≡ [])
          × ((head : LoopPolicy) → e.proposed ≡ some head → Keeps e.policy head))

some-injective : (p : LoopPolicy) {q : LoopPolicy} → some p ≡ some q → p ≡ q
some-injective p h = cc

nothing_weakened :
    (policy : LoopPolicy) (proposed : Option LoopPolicy) (diff : PullRequestDiff)
    → weakened_by policy proposed diff ≡ []
    → (find_unsafe_workflow_changes diff ≡ [])
      × ((head : LoopPolicy) → proposed ≡ some head → Keeps policy head)
unfolding weakened_by
nothing_weakened policy none diff h = (h, λ head q. cc)
nothing_weakened policy (some p) diff h =
    let input : ProtectionInput = record { base = policy; head = p; diff = diff } in
    let (a, b) =
      append-eq-nil (find_weakened_protections input) (find_unsafe_workflow_changes diff) h in
    (
      b,
      λ head q.
          subst (Keeps policy) (some-injective p q) (find_weakened_protections-Keeps input a).0,
    )

-- Whatever was collected: where an evaluation decides to merge automatically, the pull request is no
-- draft, from no fork and held by nobody; no deterministic check has a finding at or above the
-- blocking severity; at least as many reviewers as the tier of its risk level demands wrote a result,
-- and every one that was configured approves with no such finding; every required check has passed;
-- and no protection is weakened, or a person has approved.
pub evaluate-IsSound :
    (lower : String → String) (locale_le signals : String → String → Bool) (e : Evaluation)
    → (evaluate lower locale_le signals e).outcome.decision ≡ auto_merge
    → IsSound locale_le
        (reviewers_for_risk e.policy (evaluate lower locale_le signals e).risk.risk)
        e
unfolding evaluate gate_input labels_of
evaluate-IsSound lower locale_le signals e h =
    let m = (decide_merge-MayMerge lower (gate_input lower locale_le signals e)).0 h in
    let (clean, approved, count) =
      favourable_merged (run_deterministic_checks locale_le e.diff) e.policy.blocking_severity
        e.outputs m.favourable in
    record {
      not_draft = m.not_draft;
      not_fork = m.not_fork;
      not_held = m.not_held;
      checks_clean = clean;
      enough = omega (arith, m.enough_reviews, count);
      approved = approved;
      checks_passed = m.checks_passed;
      protected = elim m.unweakened [
        | inl w ↦ inr (nothing_weakened e.policy e.proposed e.diff w)
        | inr p ↦ inl p
      ];
    }

-- A proposal that more than doubles one of the three fix-round limits never merges automatically
-- without a person's approval, whatever else was collected.
pub doubled_rounds_need_approval :
    (lower : String → String) (locale_le signals : String → String → Bool) (e : Evaluation)
    (head : LoopPolicy)
    → e.proposed ≡ some head
    → (e.policy.retry.coding_fix_rounds * 2 < head.retry.coding_fix_rounds)
      ⊎ (e.policy.retry.review_fix_rounds * 2 < head.retry.review_fix_rounds)
      ⊎ (e.policy.retry.ci_fix_rounds * 2 < head.retry.ci_fix_rounds)
    → e.context.human_approvals ≡ 0
    → (evaluate lower locale_le signals e).outcome.decision ≢ auto_merge
doubled_rounds_need_approval lower locale_le signals e head p more none_yet h =
    elim (evaluate-IsSound lower locale_le signals e h).protected [
      | inl approved ↦ omega arith
      | inr (_, keeps) ↦ let k = keeps head p in omega (arith, k.coding, k.review, k.ci)
    ]
