-- ===== src/Eligibility/Readiness.antt =====
-- When an issue is eligible.
use space_elysiajs_orpc.Prelude.{
  ℕ, String, Bool, true, false, some, List, [], ◌∷◌, ◌++◌, map, ◌≡◌, ◌↔◌, arith, not, is_empty, All,
  filter, includes, Option-cases, Bool-cases, inl, inr, if◌then◌else◌,
}
use space_elysiajs_orpc.Dependencies.{contains}
use space_elysiajs_orpc.Eligibility.{
  IssueSummary, closed_issue, DependencyState, SelectionPolicy, by_number, dependency_state,
  effective_dependencies, excluded_reasons, candidate_of,
}

-- A dependency is known, and closed.
abbrev pub IsClosed : List IssueSummary → ℕ → Type 0
IsClosed issues n = (d : IssueSummary) × (by_number issues n ≡ some d) × (d.state ≡ closed_issue)

pub record IsReady (issues : List IssueSummary) (policy : SelectionPolicy) (issue : IssueSummary)
    : Type 0 where
  pub labelled : includes policy.required_label issue.labels ≡ true
  pub not_excluded : All (λ l. includes l issue.labels ≡ false) policy.excluded_labels
  pub not_skipped : contains issue.number policy.skip ≡ false
  pub unblocked : All (IsClosed issues) (effective_dependencies policy issue)

satisfied_iff :
    (issues : List IssueSummary) (n : ℕ)
    → ((dependency_state issues n).satisfied ≡ true) ↔ IsClosed issues n
unfolding dependency_state
satisfied_iff issues n = elim (Option-cases (by_number issues n)) [
  | inl e ↦ (λ h. ground (arith, rw (e, dependency_state) at h), λ (d, f, c). ground arith)
  | inr (d, e) ↦
      (λ h. (d, e, ground (arith, rw (e, dependency_state) at h)), λ (d', f, c). ground arith)
]

unmet_iff :
    (issues : List IssueSummary) (ns : List ℕ)
    → (is_empty
          (filter (λ (d : DependencyState). not d.satisfied) (map (dependency_state issues) ns))
        ≡ true)
      ↔ All (IsClosed issues) ns
unmet_iff issues [] = ground arith
unmet_iff issues (n ∷ ns) = elim (Bool-cases (dependency_state issues n).satisfied) [
  | inl e ↦ rw e (
    λ h. ((satisfied_iff issues n).0 e, (unmet_iff issues ns).0 h),
    λ (c, h). (unmet_iff issues ns).1 h,
  )
  | inr e ↦ rw e (λ h. cc, λ (c, h). ground (arith, (satisfied_iff issues n).1 c))
]

excluded_iff :
    (labels excluded : List String)
    → (is_empty (excluded_reasons labels excluded) ≡ true)
      ↔ All (λ l. includes l labels ≡ false) excluded
unfolding excluded_reasons
excluded_iff labels [] = ground arith
excluded_iff labels (l ∷ excluded) = ground (arith, excluded_iff labels excluded)

-- No reason is given exactly when none of the four tests gives one.
no_reasons_iff :
    {A : Type 0} (a c d : Bool) (es : List A) (x y z : A)
    → (is_empty (
          (if a then [] else x ∷ [])
          ++ (es ++ ((if c then y ∷ [] else []) ++ (if d then [] else z ∷ []))))
        ≡ true)
      ↔ ((a ≡ true) × (is_empty es ≡ true) × (c ≡ false) × (d ≡ true))
no_reasons_iff true true d [] x y z = ground arith
no_reasons_iff true false true [] x y z = ground arith
no_reasons_iff true false false [] x y z = ground arith
no_reasons_iff true c d (e ∷ es) x y z = ground arith
no_reasons_iff false c d es x y z = ground arith

-- An issue is eligible exactly when it carries the required label, carries none of the excluded
-- ones, is not skipped, and all the dependencies that count for it are known and closed.
pub candidate_of-IsReady :
    (issues : List IssueSummary) (policy : SelectionPolicy) (issue : IssueSummary)
    → ((candidate_of issues policy issue).eligible ≡ true) ↔ IsReady issues policy issue
unfolding candidate_of
candidate_of-IsReady issues policy issue =
    let unmet_eq = unmet_iff issues (effective_dependencies policy issue) in
    let excluded_eq = excluded_iff issue.labels policy.excluded_labels in
    let tests = no_reasons_iff _ _ _ _ _ _ _ in
    (
      λ h.
          let (a, b, c, d) = tests.0 h in
          record {
            labelled = a;
            not_excluded = excluded_eq.0 b;
            not_skipped = c;
            unblocked = unmet_eq.0 d;
          },
      λ r.
          tests.1 (r.labelled, excluded_eq.1 r.not_excluded, r.not_skipped, unmet_eq.1 r.unblocked),
    )
