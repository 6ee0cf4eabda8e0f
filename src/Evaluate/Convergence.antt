-- ===== src/Evaluate/Convergence.antt =====
-- Repeated evaluation of one pull request, by way of its sticky comment.
use space_elysiajs_orpc.Prelude.{
  ℕ, ◌+◌, ◌≤◌, ◌<◌, String, Bool, true, Option, none, some, refl, ap, sym, ◌∙◌, subst, List, [],
  ◌∷◌, ◌≡◌, arith, All, if◌then◌else◌,
}
use space_elysiajs_orpc.Gate.Outcomes.{dispatch_iff}
use space_elysiajs_orpc.State.{LoopState, initial_state, record_round}
use space_elysiajs_orpc.State.Bounds.{IsBounded, initial_state-IsBounded, record_round-IsBounded}
use space_elysiajs_orpc.State.Json.{stringify}
use space_elysiajs_orpc.State.Comment.{parse_loop_state}
use space_elysiajs_orpc.Evaluate.{Evaluation, Evaluated, gate_input, evaluate}
use space_elysiajs_orpc.Evaluate.Rendering.{RiskText, CheckRow, PullRequestView, comment_of}
use space_elysiajs_orpc.Evaluate.Rendering.Closed.{IsTame}
use space_elysiajs_orpc.Evaluate.Rendering.RoundTrip.{parse_loop_state-comment_of}

-- What one run of the workflow evaluates, with the texts that it prints of the reasons and checks.
pub record Round : Type 0 where
  pub collected : Evaluation
  pub risk_reasons : List RiskText
  pub reasons : List String
  pub checks : List CheckRow

module _ (lower : String → String) (locale_le signals : String → String → Bool) where
  evaluate_counts :
      (e : Evaluation)
      → let r = evaluate lower locale_le signals e in
        (r.state.review_attempts
          ≡ e.previous.review_attempts + (if r.outcome.should_dispatch_fix then 1 else 0))
        × (r.outcome.should_dispatch_fix ≡ true
            → e.previous.review_attempts < e.policy.retry.max_review_attempts)
  unfolding evaluate record_round gate_input
  evaluate_counts e = ground (arith, dispatch_iff lower (gate_input lower locale_le signals e))

  evaluate-IsBounded :
      (e : Evaluation) → IsBounded e.previous → IsBounded (evaluate lower locale_le signals e).state
  unfolding evaluate
  evaluate-IsBounded e b =
      record_round-IsBounded _ (record { rounds = b.rounds; entries = b.entries })

  -- `read` is the reading of the JSON text by the schema, as in State.Comment.
  module _ (read : String → Option LoopState) where
    -- What is evaluated: the previous state is read from the sticky comment.
    abbrev pub evaluation_at : Option String → Round → Evaluation
    evaluation_at sticky round = record round.collected {
      previous = parse_loop_state read sticky round.collected.issue;
    }

    abbrev pub evaluated_at : Option String → Round → Evaluated
    evaluated_at sticky round = evaluate lower locale_le signals (evaluation_at sticky round)

    abbrev pub view_at : Option String → Round → PullRequestView
    view_at sticky round =
        let e = round.collected in
        let r = evaluated_at sticky round in
        record {
          issue = e.issue;
          risk = r.risk.risk;
          risk_reasons = round.risk_reasons;
          review = r.outcome.review;
          decision = r.outcome.decision;
          reasons = round.reasons;
          risk_gate = r.outcome.risk_gate;
          review_gate = r.outcome.review_gate;
          state = r.state;
          max_review_attempts = e.policy.retry.max_review_attempts;
          checks = round.checks;
          recurrence = r.recurrence;
        }

    -- The evaluations of a pull request one after the other, each from the sticky comment that the
    -- one before wrote; with the number of fixes that they dispatch.
    pub rounds : Option String → List Round → Option String × ℕ
    rounds sticky [] = (sticky, 0)
    rounds sticky (round ∷ later) =
        let (last, dispatched) = rounds (some (comment_of (view_at sticky round))) later in
        (
          last,
          (if (evaluated_at sticky round).outcome.should_dispatch_fix then 1 else 0) + dispatched,
        )

    -- Each comment written is such that its state is read back: what it prints unsanitised opens no
    -- HTML comment, and the schema reads the printed state as what it was.
    abbrev pub AreReadable : Option String → List Round → Type 0
    AreReadable sticky [] = Unit
    AreReadable sticky (round ∷ later) =
        IsTame (view_at sticky round)
        × (read (stringify (evaluated_at sticky round).state)
            ≡ some (evaluated_at sticky round).state)
        × AreReadable (some (comment_of (view_at sticky round))) later

    -- What is read from the comment has counted so many attempts.
    pub record Counted (max n : ℕ) (sticky : Option String) : Type 0 where
      pub attempts : (issue : Option ℕ) → (parse_loop_state read sticky issue).review_attempts ≡ n
      pub below : n ≤ max
      pub bounded : (issue : Option ℕ) → IsBounded (parse_loop_state read sticky issue)

    Counted-none : (max : ℕ) → Counted max 0 none
    unfolding parse_loop_state initial_state
    Counted-none max = record {
      attempts = λ issue. refl;
      below = omega arith;
      bounded = initial_state-IsBounded;
    }

    Counted-comment :
        (max n : ℕ) (sticky : Option String) (round : Round)
        → round.collected.policy.retry.max_review_attempts ≤ max
        → IsTame (view_at sticky round)
        → read (stringify (evaluated_at sticky round).state)
          ≡ some (evaluated_at sticky round).state
        → Counted max n sticky
        → Counted max
            ((if (evaluated_at sticky round).outcome.should_dispatch_fix then 1 else 0) + n)
            (some (comment_of (view_at sticky round)))
    Counted-comment max n sticky round le tame back c =
        let e = evaluation_at sticky round in
        let (count, bound) = evaluate_counts e in
        let before = c.attempts round.collected.issue in
        let same : (issue : Option ℕ)
            → parse_loop_state read (some (comment_of (view_at sticky round))) issue
              ≡ (evaluated_at sticky round).state =
          λ issue. parse_loop_state-comment_of read (view_at sticky round) issue back tame in
        record {
          attempts = λ issue.
              ap (λ (s : LoopState). s.review_attempts) (same issue) ∙ omega (arith, count, before);
          below = ground (arith, bound, before, le, c.below);
          bounded = λ issue.
              subst IsBounded (sym (same issue))
                (evaluate-IsBounded e (c.bounded round.collected.issue));
        }

    rounds_from :
        (max n : ℕ) (sticky : Option String) (rs : List Round)
        → All (λ (r : Round). r.collected.policy.retry.max_review_attempts ≤ max) rs
        → AreReadable sticky rs
        → Counted max n sticky
        → Counted max ((rounds sticky rs).1 + n) (rounds sticky rs).0
    unfolding rounds
    rounds_from max n sticky [] h k c =
        let same : n ≡ 0 + n = omega arith in subst (λ (m : ℕ). Counted max m sticky) same c
    rounds_from max n sticky (round ∷ later) h (tame, back, rest) c =
        let dispatched = if (evaluated_at sticky round).outcome.should_dispatch_fix then 1 else 0 in
        let next = some (comment_of (view_at sticky round)) in
        let moved : (rounds next later).1 + (dispatched + n)
            ≡ dispatched + (rounds next later).1 + n =
          omega arith in
        subst (λ (m : ℕ). Counted max m (rounds next later).0) moved
          (rounds_from max (dispatched + n) next later h.1 rest
            (Counted-comment max n sticky round h.0 tame back c))

    -- Over any number of evaluations of a pull request without a sticky comment at first, each from
    -- the comment that the one before wrote: if each comment is found as it was written, none opens an
    -- HTML comment by a path, check name, reason source or commit that it prints, and the schema reads
    -- each state back, then the fixes dispatched are exactly the attempts that the last comment
    -- counts, at most any bound on the attempt limits of the policies in force; and its history holds
    -- at most 25 rounds, each of at most ten findings and of no later attempt than is counted.
    pub rounds_converge :
        (max : ℕ) (issue : Option ℕ) (rs : List Round)
        → All (λ (r : Round). r.collected.policy.retry.max_review_attempts ≤ max) rs
        → AreReadable none rs
        → ((parse_loop_state read (rounds none rs).0 issue).review_attempts ≡ (rounds none rs).1)
          × ((rounds none rs).1 ≤ max)
          × IsBounded (parse_loop_state read (rounds none rs).0 issue)
    rounds_converge max issue rs h k =
        let c = rounds_from max 0 none rs h k (Counted-none max) in
        (omega (arith, c.attempts issue), omega (arith, c.below), c.bounded issue)
