-- ===== src/Gate.antt =====
-- tooling/loop/src/merge-gate.ts: what may happen to a pull request. The messages of `reasons` are
-- constructors that hold the values which the source puts into the text.
pub mod Merging
pub mod Checks
pub mod Outcomes
use space_elysiajs_orpc.Prelude.{
  ℕ, String, Bool, true, false, Option, none, some, List, [], ◌∷◌, ◌++◌, map, leb, ltb, eqb, ◌&&◌,
  ◌||◌, if◌then◌else◌, filter, find, is_empty, not, ◌==◌, length, includes,
}
use space_elysiajs_orpc.Policy.{RiskLevel, Severity}
use space_elysiajs_orpc.Review.{Finding, ReviewStatus, ReviewResult, is_approve, is_blocked}
use space_elysiajs_orpc.Aggregate.{AggregateReason, AggregateOutcome, aggregate_reviews}

pub data GateDecision : Type 0 where
  auto_merge human_approval_required changes_requested blocked waiting : GateDecision

pub data CheckConclusion : Type 0 where
  success failure pending skipped neutral cancelled timed_out missing : CheckConclusion

pub record CheckState : Type 0 where
  pub name : String
  pub conclusion : CheckConclusion

pub record TierVerification : Type 0 where
  pub ok : Bool
  pub unavailable : List String
  pub failed : List String

pub record GateInput : Type 0 where
  pub risk : RiskLevel
  pub reviews : List ReviewResult
  pub required_reviewers : ℕ
  pub checks : List CheckState
  pub required_checks : List String
  pub review_attempts : ℕ
  pub max_review_attempts : ℕ
  pub human_approvals : ℕ
  pub is_fork : Bool
  pub is_draft : Bool
  pub blocking_severity : Severity
  pub weakened_protections : Option (List Finding)
  pub human_hold : Option Bool
  pub tier_verification : Option TierVerification

pub data GateReason : Type 0 where
  review : AggregateReason → GateReason
  from_a_fork : GateReason
  would_weaken : List String → GateReason
  tier_failed : RiskLevel → List String → GateReason
  tier_unavailable : RiskLevel → List String → GateReason
  draft held_by_a_person never_merge_forks weakens_the_loop no_usable_verdict : GateReason
  retry_limit : ℕ → ℕ → GateReason
  cannot_verify_here : GateReason
  failing_checks : List String → GateReason
  unreported_checks : List String → GateReason
  all_passed : RiskLevel → ℕ → GateReason

pub record GateOutcome : Type 0 where
  pub decision : GateDecision
  pub reasons : List GateReason
  pub risk_gate : Bool
  pub review_gate : Bool
  pub should_dispatch_fix : Bool
  pub review : ReviewResult

-- `PENDING`
abbrev pub is_pending : CheckConclusion → Bool
is_pending CheckConclusion.pending = true
is_pending CheckConclusion.missing = true
is_pending _ = false

-- The conclusions that `failing` filters for.
abbrev pub is_failing : CheckConclusion → Bool
is_failing CheckConclusion.failure = true
is_failing CheckConclusion.timed_out = true
is_failing CheckConclusion.cancelled = true
is_failing _ = false

abbrev pub self_published_checks : List String
self_published_checks = "loop/risk-gate" ∷ "loop/review-gate" ∷ []

unfoldable pub without_self_published_checks : List String → List String
without_self_published_checks = filter (λ name. not (includes name self_published_checks))

abbrev or_missing : String → Option CheckState → CheckState
or_missing name none = record { name = name; conclusion = CheckConclusion.missing }
or_missing name (some observed) = observed

unfoldable pub observe : List CheckState → String → CheckState
observe checks name = or_missing name (find (λ (c : CheckState). c.name == name) checks)

unfoldable pub required_check_states : GateInput → List CheckState
unfolding without_self_published_checks observe
required_check_states input =
    map (observe input.checks) (without_self_published_checks input.required_checks)

abbrev pub or_nil {ℓ} : {A : Type ℓ} → Option (List A) → List A
or_nil none = []
or_nil (some l) = l

abbrev pub or_false : Option Bool → Bool
or_false none = false
or_false (some b) = b

-- `tier?.unavailable ?? []`, `tier?.failed ?? []`, `tier === undefined ? true : tier.ok`
abbrev pub unavailable_of : Option TierVerification → List String
unavailable_of none = []
unavailable_of (some t) = t.unavailable

abbrev pub failed_of : Option TierVerification → List String
failed_of none = []
failed_of (some t) = t.failed

abbrev pub ok_of : Option TierVerification → Bool
ok_of none = true
ok_of (some t) = t.ok

abbrev names_of : List CheckState → List String
names_of = map (λ (c : CheckState). c.name)

-- The reasons pushed before any decision.
collected_reasons : GateInput → AggregateOutcome → List GateReason
collected_reasons input aggregate =
    let weakened = or_nil input.weakened_protections in
    let failed = failed_of input.tier_verification in
    let unavailable = unavailable_of input.tier_verification in
    (if is_approve aggregate.status then [] else map review aggregate.reasons)
    ++ ((if input.is_fork then from_a_fork ∷ [] else [])
        ++ ((if is_empty weakened
              then []
              else would_weaken (map (λ (f : Finding). f.description) weakened) ∷ [])
            ++ ((if is_empty failed then [] else tier_failed input.risk failed ∷ [])
                ++ (if is_empty unavailable
                    then []
                    else tier_unavailable input.risk unavailable ∷ []))))

-- `toLowerCase` is the parameter, as in Aggregate. The gates are `true` for `success`.
module _ (lower : String → String) where
  unfoldable pub aggregate_of : GateInput → AggregateOutcome
  aggregate_of input = aggregate_reviews lower (record {
    reviews = input.reviews;
    required = input.required_reviewers;
    blocking_severity = input.blocking_severity;
  })

  unfoldable pub decide_merge : GateInput → GateOutcome
  unfolding collected_reasons
  decide_merge input =
      let required = required_check_states input in
      let failing = filter (λ (c : CheckState). is_failing c.conclusion) required in
      let pending = filter (λ (c : CheckState). is_pending c.conclusion) required in
      let aggregate = aggregate_of input in
      let weakened = or_nil input.weakened_protections in
      let review_gate = is_approve aggregate.status in
      let tier = input.tier_verification in
      let risk_gate = not (input.is_fork || not (is_empty weakened) || not (ok_of tier)) in
      let reasons = collected_reasons input aggregate in
      let outcome : GateDecision → Bool → List GateReason → GateOutcome = λ decision dispatch first.
        record {
          decision = decision;
          reasons = first ++ reasons;
          risk_gate = risk_gate;
          review_gate = review_gate;
          should_dispatch_fix = dispatch;
          review = record {
            status = aggregate.status;
            findings = aggregate.findings;
            summary = aggregate.summary;
          };
        } in
      let retries_exhausted = leb input.max_review_attempts input.review_attempts in
      let needs_work =
        not review_gate || not (is_empty failing) || not (is_empty (failed_of tier)) in
      if input.is_draft
      then outcome waiting false (draft ∷ [])
      else if or_false input.human_hold
      then outcome human_approval_required false (held_by_a_person ∷ [])
      else if input.is_fork
      then outcome human_approval_required false (never_merge_forks ∷ [])
      else if not (is_empty weakened) && eqb input.human_approvals 0
      then outcome human_approval_required false (weakens_the_loop ∷ [])
      else if is_blocked aggregate.status
      then outcome blocked false (no_usable_verdict ∷ [])
      else if needs_work && retries_exhausted
      then outcome blocked false (retry_limit input.review_attempts input.max_review_attempts ∷ [])
      else if not (is_empty (unavailable_of tier))
      then outcome blocked false (cannot_verify_here ∷ [])
      else if not (is_empty failing)
      then outcome changes_requested true (failing_checks (names_of failing) ∷ [])
      else if not (is_empty (failed_of tier))
      then outcome changes_requested true []
      else if not review_gate
      then outcome changes_requested true []
      else if not (is_empty pending)
      then outcome waiting false (unreported_checks (names_of pending) ∷ [])
      else outcome auto_merge false (all_passed input.risk aggregate.received ∷ [])
