-- ===== src/Eligibility/Selection.antt =====
-- Which issue is selected: among those that are ready, the first by priority label and number.
use mathlib.Core.List.Memᴰ
use space_elysiajs_orpc.Prelude.{
  ◌≤◌, ◌<◌, ◌⊎◌, Bool, true, false, none, some, List, [], ◌∷◌, map, ◌≡◌, ◌↔◌, refl, Option-cases,
  ap, arith, All-mem, find, Memᴰ, Bool-cases, inl, inr, mem-of_find, mem-of_filter,
  mem-filter_of_mem,
}
use space_elysiajs_orpc.Prelude.Sorting.{mem-sort, mem-of_sort, IsSorted, sort-IsSorted}
use space_elysiajs_orpc.Eligibility.{
  IssueSummary, is_open, Candidate, SelectionPolicy, candidate_of, comes_first, priority_rank,
  evaluate_candidates, select_next_issue,
}
use space_elysiajs_orpc.Eligibility.Readiness.{IsReady, candidate_of-IsReady}

-- An open issue of the backlog that can be worked on.
abbrev pub IsOffered : List IssueSummary → SelectionPolicy → IssueSummary → Type 0
IsOffered issues policy issue =
    Memᴰ issue issues × (is_open issue.state ≡ true) × IsReady issues policy issue

-- More urgent by its label, or as urgent and with no higher number.
abbrev pub Precedes : SelectionPolicy → IssueSummary → IssueSummary → Type 0
Precedes policy i j =
    (priority_rank i.labels policy.priority_labels < priority_rank j.labels policy.priority_labels)
    ⊎ ((priority_rank i.labels policy.priority_labels
          ≡ priority_rank j.labels policy.priority_labels)
        × (i.number ≤ j.number))

comes_first-total :
    (policy : SelectionPolicy) (x y : Candidate)
    → comes_first policy x y ≡ false
    → comes_first policy y x ≡ true
comes_first-total policy x y h = ground arith

comes_first_trans :
    (policy : SelectionPolicy) (x y z : Candidate)
    → comes_first policy x y ≡ true
    → comes_first policy y z ≡ true
    → comes_first policy x z ≡ true
comes_first_trans policy x y z h k = ground arith

comes_first-Precedes :
    (policy : SelectionPolicy) (x y : Candidate)
    → comes_first policy x y ≡ true
    → Precedes policy x.issue y.issue
comes_first-Precedes policy x y h = ground arith

-- In a sorted list, what is found comes before every other item that passes, or is it.
find-IsSorted :
    {A : Type 0} (le : A → A → Bool) (p : A → Bool) (xs : List A) {a b : A}
    → IsSorted le xs
    → find p xs ≡ some a
    → Memᴰ b xs
    → p b ≡ true
    → (b ≡ a) ⊎ (le a b ≡ true)
find-IsSorted le p [] s f m h = elim m [ ]
find-IsSorted le p (x ∷ xs) {a} s f m h = elim (Bool-cases (p x)) [
  | inl e ↦
      let q : x ≡ a = ground arith in
      elim (Memᴰ.cases_cons m) [ inl r ↦ inl cc | inr t ↦ inr (rw (← q) (All-mem _ _ xs s.0 t)) ]
  | inr e ↦ elim (Memᴰ.cases_cons m) [
    | inl r ↦ ground (arith, ap p r)
    | inr t ↦ find-IsSorted le p xs s.1 (rw e at f) t h
  ]
]

-- What is not found is nowhere.
find-none :
    {A : Type 0} (p : A → Bool) (xs : List A) {b : A} → find p xs ≡ none → Memᴰ b xs → p b ≡ false
find-none p [] f m = elim m [ ]
find-none p (x ∷ xs) f (Memᴰ.head e) = ground (arith, ap p e)
find-none p (x ∷ xs) f (Memᴰ.tail m) = find-none p xs (ground arith) m

mem-map : {A B : Type 0} (g : A → B) {a : A} (xs : List A) → Memᴰ a xs → Memᴰ (g a) (map g xs)
mem-map g [] m = elim m [ ]
mem-map g (x ∷ xs) (Memᴰ.head e) = Memᴰ.head (ap g e)
mem-map g (x ∷ xs) (Memᴰ.tail m) = Memᴰ.tail (mem-map g xs m)

mem-of_map :
    {A B : Type 0} (g : A → B) {b : B} (xs : List A)
    → Memᴰ b (map g xs)
    → (a : A) × Memᴰ a xs × (b ≡ g a)
mem-of_map g [] m = elim m [ ]
mem-of_map g (x ∷ xs) m = elim (Memᴰ.cases_cons m) [
  | inl e ↦ (x, Memᴰ.head refl, e)
  | inr t ↦ let (a, n, q) = mem-of_map g xs t in (a, Memᴰ.tail n, q)
]

module _ (issues : List IssueSummary) (policy : SelectionPolicy) where
  IsOffered-candidate :
      (issue : IssueSummary)
      → Memᴰ issue issues
      → is_open issue.state ≡ true
      → Memᴰ (candidate_of issues policy issue) (evaluate_candidates issues policy)
  unfolding evaluate_candidates
  IsOffered-candidate issue m o =
      mem-sort (comes_first policy) _ _ (mem-map _ _ (mem-filter_of_mem _ issue issues m o))

  candidate-IsOffered :
      (c : Candidate)
      → Memᴰ c (evaluate_candidates issues policy)
      → (issue : IssueSummary) × Memᴰ issue issues
        × (is_open issue.state ≡ true)
        × (c ≡ candidate_of issues policy issue)
  unfolding evaluate_candidates
  candidate-IsOffered c m =
      let (issue, n, q) = mem-of_map _ _ (mem-of_sort (comes_first policy) c _ m) in
      let (k, o) = mem-of_filter _ issue issues n in (issue, k, o, q)

  evaluate_candidates-IsSorted : IsSorted (comes_first policy) (evaluate_candidates issues policy)
  unfolding evaluate_candidates
  evaluate_candidates-IsSorted =
      sort-IsSorted (comes_first policy) (comes_first-total policy) (comes_first_trans policy) _

  -- What the search finds is what is selected.
  select_next_issue_cases :
      ((c : Candidate) × (find (λ (d : Candidate). d.eligible) (evaluate_candidates issues policy)
          ≡ some c)
        × ((select_next_issue issues policy).selected ≡ some c.issue))
      ⊎ ((find (λ (d : Candidate). d.eligible) (evaluate_candidates issues policy) ≡ none)
          × ((select_next_issue issues policy).selected ≡ none))
  unfolding select_next_issue
  select_next_issue_cases =
      elim (Option-cases
        (find (λ (d : Candidate). d.eligible) (evaluate_candidates issues policy))) [
          | inl e ↦ inr (e, rw (e, select_next_issue) refl)
          | inr (c, e) ↦ inl (c, e, rw (e, select_next_issue) refl)
        ]

  candidate-Precedes :
      (c : Candidate) (j : IssueSummary)
      → find (λ (d : Candidate). d.eligible) (evaluate_candidates issues policy) ≡ some c
      → IsOffered issues policy j
      → (j ≡ c.issue) ⊎ Precedes policy c.issue j
  unfolding candidate_of
  candidate-Precedes c j f (m, o, r) =
      elim (find-IsSorted (comes_first policy) _ _ evaluate_candidates-IsSorted f
        (IsOffered-candidate j m o) ((candidate_of-IsReady issues policy j).1 r)) [
          | inl q ↦ inl (ap (λ (d : Candidate). d.issue) q)
          | inr h ↦ inr (comes_first-Precedes policy c (candidate_of issues policy j) h)
        ]

  candidate-issue :
      (c : Candidate)
      → find (λ (d : Candidate). d.eligible) (evaluate_candidates issues policy) ≡ some c
      → IsOffered issues policy c.issue
  unfolding candidate_of
  candidate-issue c f =
      let (m, e) = mem-of_find _ _ f in
      let (i, n, o, q) = candidate-IsOffered c m in
      rw q (
        n,
        o,
        (candidate_of-IsReady issues policy i).0 (rw (← ap (λ (d : Candidate). d.eligible) q) e),
      )

  none-IsOffered :
      (j : IssueSummary)
      → find (λ (d : Candidate). d.eligible) (evaluate_candidates issues policy) ≡ none
      → Memᴰ j issues
      → is_open j.state ≡ true
      → ¬ IsReady issues policy j
  none-IsOffered j f m o r =
      let e = (candidate_of-IsReady issues policy j).1 r in
      let n = find-none _ _ f (IsOffered-candidate j m o) in ground arith

-- Which issue is selected: only one that is listed, open and ready, and that no other such issue
-- comes before by its priority label, then its number; and nothing is selected exactly when no
-- listed open issue is ready.
pub select_next_issue_exact :
    (issues : List IssueSummary) (policy : SelectionPolicy)
    → ((i : IssueSummary)
        → (select_next_issue issues policy).selected ≡ some i
        → IsOffered issues policy i
          × ((j : IssueSummary) → IsOffered issues policy j → (j ≡ i) ⊎ Precedes policy i j))
      × (((select_next_issue issues policy).selected ≡ none)
          ↔ ((j : IssueSummary) → ¬ IsOffered issues policy j))
select_next_issue_exact issues policy = elim (select_next_issue_cases issues policy) [
  | inl (c, f, s) ↦ (
    λ i h.
        let q : c.issue ≡ i = ground arith in
        rw (← q)
          (candidate-issue issues policy c f, λ j o. candidate-Precedes issues policy c j f o),
    (λ h. ground arith, λ h. elim (h c.issue (candidate-issue issues policy c f)) [ ]),
  )
  | inr (f, s) ↦
      (λ i h. ground arith, (λ h j (m, o, r). none-IsOffered issues policy j f m o r, λ h. s))
]
