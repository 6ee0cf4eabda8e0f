-- ===== src/Runner/Work/Reviews/Keeping.antt =====
-- What the review passes keep and gather: only what the reviewers answered to the task.
use space_elysiajs_orpc.Prelude.{
  refl, ℕ, zero, suc, ◌+◌, [], ◌∷◌, Option, none, some, All, All-append,
}
use space_elysiajs_orpc.Runner.Journal.{Journal}
use space_elysiajs_orpc.Runner.Machine.{
  M, pure, Machine, Services, ReviewTask, ReviewOutcome, reviewed, unusable, review,
}
use space_elysiajs_orpc.Runner.Machine.Laws.{Leads, Runs-bind, Runs-after, Leads-pure}
use space_elysiajs_orpc.Runner.Work.{Deps, Job}
use space_elysiajs_orpc.Runner.Work.Keeping.{
  Kept, spend_invocation-Keeps, Answered, IsAnswer, IsOwnReview, call-Answered,
}
use space_elysiajs_orpc.Runner.Work.Reviews.{
  Gathered, joined, after_attempt, try_reviewer, one_pass, reviewer_at, gather_from, gather_reviews,
}

module _ {W : Type 0} (deps : Deps) (services : Services W) (job : Job) (K : Journal → Type 0)
    (I : Machine W → Type 0) (kept : Kept deps services job K I) (task : ReviewTask)
    (own : IsOwnReview job task) where
  abbrev AreAnswers : Gathered → Type 0
  AreAnswers g = All (IsAnswer services task) g.usable

  after_attempt-Runs :
      (pass attempt reviewer : ℕ) (retry : M (Machine W) Gathered) (outcome : ReviewOutcome)
      → Answered services (review reviewer task) outcome
      → Leads I I retry AreAnswers
      → Leads I I (after_attempt services task pass attempt retry outcome) AreAnswers
  unfolding after_attempt
  after_attempt-Runs pass attempt reviewer retry (reviewed result) a h =
      Leads-pure I _ AreAnswers ((reviewer, a), tt)
  after_attempt-Runs pass attempt reviewer retry (unusable reason) a h =
      let failure : Gathered = record {
        usable = [];
        failures = (pass + 1, some (attempt + 1, reason)) ∷ [];
      } in
      Runs-bind I AreAnswers AreAnswers _ (λ (later : Gathered). pure (joined failure later)) h
        (λ later q. Leads-pure I (joined failure later) AreAnswers q)

  try_reviewer-Runs :
      (left attempt pass reviewer : ℕ)
      → Leads I I (try_reviewer services task left attempt pass reviewer) AreAnswers
  unfolding try_reviewer
  try_reviewer-Runs zero attempt pass reviewer = Leads-pure I _ AreAnswers tt
  try_reviewer-Runs (suc left) attempt pass reviewer =
      Runs-after I AreAnswers _ _ (spend_invocation-Keeps deps services job K I kept) (λ _.
        Runs-bind I (Answered services (review reviewer task)) AreAnswers _ _
          (call-Answered services I (review reviewer task)
            (kept.called (review reviewer task) own refl))
          (λ outcome a.
            after_attempt-Runs pass attempt reviewer _ outcome a
              (try_reviewer-Runs left (suc attempt) pass reviewer)))

  module _ (reviewers retry_rounds : ℕ) where
    one_pass-Runs :
        (pass : ℕ) (reviewer : Option ℕ)
        → Leads I I (one_pass services task reviewers retry_rounds pass reviewer) AreAnswers
    unfolding one_pass
    one_pass-Runs pass none = Leads-pure I _ AreAnswers tt
    one_pass-Runs pass (some reviewer) = try_reviewer-Runs retry_rounds 0 pass reviewer

    gather_from-Runs :
        (left pass : ℕ)
        → Leads I I (gather_from services task reviewers retry_rounds left pass) AreAnswers
    unfolding gather_from
    gather_from-Runs zero pass = Leads-pure I _ AreAnswers tt
    gather_from-Runs (suc left) pass =
        Runs-bind I AreAnswers AreAnswers _ _ (one_pass-Runs pass (reviewer_at reviewers pass))
          (λ first f.
            Runs-bind I AreAnswers AreAnswers _ _ (gather_from-Runs left (suc pass)) (λ later l.
              Leads-pure I (joined first later) AreAnswers
                (All-append _ first.usable later.usable f l)))

    pub gather_reviews-Runs :
        (required : ℕ)
        → Leads I I (gather_reviews services task reviewers retry_rounds required) AreAnswers
    unfolding gather_reviews
    gather_reviews-Runs required = gather_from-Runs required 0
