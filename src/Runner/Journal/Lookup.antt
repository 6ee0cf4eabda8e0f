-- ===== src/Runner/Journal/Lookup.antt =====
-- The runs of the journal by their issues, and how many are in flight.
use space_elysiajs_orpc.Prelude.{
  ℕ, zero, suc, ◌≤◌, ◌<◌, Bool, some, List, [], ◌∷◌, ◌≡◌, ◌≢◌, refl, sym, ap, subst, ◌∙◌, arith,
  eqb, eqb_iff, not, filter, find, take, length, mem-of_find, Bool-cases, inl, inr, if◌then◌else◌,
}
use space_elysiajs_orpc.Runner.Journal.{
  RunRecord, Journal, find_run, upsert_run, in_flight, is_in_flight,
}

pub find_run-issue :
    (j : Journal) (n : ℕ) (run : RunRecord) → find_run j n ≡ some run → run.issue ≡ n
unfolding find_run
find_run-issue j n run e =
    (eqb_iff run.issue n).0 (mem-of_find (λ (r : RunRecord). eqb r.issue n) j.runs e).1

take-all {ℓ} : {A : Type ℓ} (n : ℕ) (xs : List A) → length xs ≤ n → take n xs ≡ xs
take-all zero [] h = refl
take-all zero (x ∷ xs) h = let bad : ⊥ = omega arith in elim bad [ ]
take-all (suc n) [] h = refl
take-all (suc n) (x ∷ xs) h = rw (take-all n xs (omega arith)) refl

length-filter {ℓ} : {A : Type ℓ} (p : A → Bool) (xs : List A) → length (filter p xs) ≤ length xs
length-filter p [] = omega arith
length-filter p (x ∷ xs) = elim (Bool-cases (p x)) [
  | inl e ↦ rw e (omega (arith, length-filter p xs))
  | inr e ↦ rw e (omega (arith, length-filter p xs))
]

find-others :
    (n m : ℕ) (runs : List RunRecord)
    → n ≢ m
    → find (λ (r : RunRecord). eqb r.issue n) (filter (λ (r : RunRecord). not (eqb r.issue m)) runs)
      ≡ find (λ (r : RunRecord). eqb r.issue n) runs
find-others n m [] h = refl
find-others n m (run ∷ runs) h = elim (Bool-cases (eqb run.issue m)) [
  | inl e ↦ elim (Bool-cases (eqb run.issue n)) [
    | inl f ↦ elim (h (sym ((eqb_iff run.issue n).0 f) ∙ (eqb_iff run.issue m).0 e)) [ ]
    | inr f ↦ rw (e, f) (find-others n m runs h)
  ]
  | inr e ↦ rw (e, find-others n m runs h) refl
]

-- A run that is written is found under its issue, and every other issue finds what it found before,
-- while the journal holds fewer than 200 runs.
pub find_run-upsert_run :
    (j : Journal) (run : RunRecord) (n : ℕ)
    → length j.runs < 200
    → find_run (upsert_run j run) n ≡ (if eqb run.issue n then some run else find_run j n)
unfolding find_run upsert_run
find_run-upsert_run j run n h =
    ap (find (λ (r : RunRecord). eqb r.issue n)) (
      take-all 200 (run ∷ filter (λ (r : RunRecord). not (eqb r.issue run.issue)) j.runs)
        (omega (arith, length-filter (λ (r : RunRecord). not (eqb r.issue run.issue)) j.runs)))
    ∙ elim (Bool-cases (eqb run.issue n)) [
      | inl e ↦ rw e refl
      | inr e ↦ rw e (find-others n run.issue j.runs (λ q. cc ((eqb_iff run.issue n).1 (sym q))))
    ]

-- The runs in flight of other issues than one.
abbrev pub others_in_flight : ℕ → List RunRecord → List RunRecord
others_in_flight n runs =
    filter (λ (r : RunRecord). is_in_flight r.status)
      (filter (λ (r : RunRecord). not (eqb r.issue n)) runs)

-- No run of another issue is in flight, and at most one is.
pub record OnlyInFlight (n : ℕ) (j : Journal) : Type 0 where
  pub others : others_in_flight n j.runs ≡ []
  pub at_most_one : length (in_flight j) ≤ 1

others-take :
    (n k : ℕ) (runs : List RunRecord)
    → others_in_flight n runs ≡ []
    → others_in_flight n (take k runs) ≡ []
others-take n zero runs h = refl
others-take n (suc k) [] h = refl
others-take n (suc k) (run ∷ runs) h = elim (Bool-cases (eqb run.issue n)) [
  | inl e ↦ rw e (others-take n k runs (rw e at h))
  | inr e ↦ elim (Bool-cases (is_in_flight run.status)) [
    | inl f ↦ cc (rw (e, f) at h)
    | inr f ↦ rw (e, f) (others-take n k runs (rw (e, f) at h))
  ]
]

others-filter :
    (n : ℕ) (runs : List RunRecord)
    → others_in_flight n (filter (λ (r : RunRecord). not (eqb r.issue n)) runs)
      ≡ others_in_flight n runs
others-filter n [] = refl
others-filter n (run ∷ runs) = elim (Bool-cases (eqb run.issue n)) [
  | inl e ↦ rw e (others-filter n runs)
  | inr e ↦ elim (Bool-cases (is_in_flight run.status)) [
    | inl f ↦ rw (e, e, f, others-filter n runs) refl
    | inr f ↦ rw (e, e, f, others-filter n runs) refl
  ]
]

length-filter-take {ℓ} :
    {A : Type ℓ} (p : A → Bool) (k : ℕ) (xs : List A)
    → length (filter p (take k xs)) ≤ length (filter p xs)
length-filter-take p zero xs = omega arith
length-filter-take p (suc k) [] = omega arith
length-filter-take p (suc k) (x ∷ xs) = elim (Bool-cases (p x)) [
  | inl e ↦ rw e (omega (arith, length-filter-take p k xs))
  | inr e ↦ rw e (length-filter-take p k xs)
]

one_more :
    (run : RunRecord) (runs : List RunRecord)
    → filter (λ (r : RunRecord). is_in_flight r.status) runs ≡ []
    → length (filter (λ (r : RunRecord). is_in_flight r.status) (run ∷ runs)) ≤ 1
one_more run runs h = elim (Bool-cases (is_in_flight run.status)) [
  | inl f ↦ rw (f, h) (omega arith)
  | inr f ↦ rw (f, h) (omega arith)
]

upsert_own :
    (j : Journal) (run : RunRecord)
    → OnlyInFlight run.issue j
    → OnlyInFlight run.issue (upsert_run j run)
unfolding upsert_run in_flight
upsert_own j run h =
    let rest = filter (λ (r : RunRecord). not (eqb r.issue run.issue)) j.runs in
    record {
      others =
          others-take run.issue 200 (run ∷ rest)
            (rw ((eqb_iff run.issue run.issue).1 refl) (others-filter run.issue j.runs ∙ h.others));
      at_most_one = omega (
        arith,
        length-filter-take (λ (r : RunRecord). is_in_flight r.status) 200 (run ∷ rest),
        one_more run rest h.others,
      );
    }

filter_comm {ℓ} :
    {A : Type ℓ} (p q : A → Bool) (xs : List A) → filter p (filter q xs) ≡ filter q (filter p xs)
filter_comm p q [] = refl
filter_comm p q (x ∷ xs) = elim (Bool-cases (p x)) [
  | inl e ↦ elim (Bool-cases (q x)) [
    | inl f ↦ rw (e, f, e, filter_comm p q xs) refl
    | inr f ↦ rw (e, f) (filter_comm p q xs)
  ]
  | inr e ↦ elim (Bool-cases (q x)) [
    | inl f ↦ rw (e, f, e) (filter_comm p q xs)
    | inr f ↦ rw (e, f) (filter_comm p q xs)
  ]
]

-- A write of the issue's own run keeps it the only one.
pub upsert_run-OnlyInFlight :
    (n : ℕ) (j : Journal) (run : RunRecord)
    → run.issue ≡ n
    → OnlyInFlight n j
    → OnlyInFlight n (upsert_run j run)
upsert_run-OnlyInFlight n j run q =
    subst (λ m. OnlyInFlight m j → OnlyInFlight m (upsert_run j run)) q (upsert_own j run)

-- Where nothing is in flight, any issue is the only one.
pub nothing-OnlyInFlight : (n : ℕ) (j : Journal) → in_flight j ≡ [] → OnlyInFlight n j
unfolding in_flight
nothing-OnlyInFlight n j h = record {
  others =
      filter_comm (λ (r : RunRecord). is_in_flight r.status)
        (λ (r : RunRecord). not (eqb r.issue n)) j.runs
      ∙ ap (filter (λ (r : RunRecord). not (eqb r.issue n))) h;
  at_most_one = rw h (omega arith);
}

-- The only run in flight is the only one of its issue.
pub single-OnlyInFlight :
    (run : RunRecord) (j : Journal) → in_flight j ≡ run ∷ [] → OnlyInFlight run.issue j
unfolding in_flight
single-OnlyInFlight run j h = record {
  others =
      filter_comm (λ (r : RunRecord). is_in_flight r.status)
        (λ (r : RunRecord). not (eqb r.issue run.issue)) j.runs
      ∙ (ap (filter (λ (r : RunRecord). not (eqb r.issue run.issue))) h
          ∙ rw ((eqb_iff run.issue run.issue).1 refl) refl);
  at_most_one = rw h (omega arith);
}
