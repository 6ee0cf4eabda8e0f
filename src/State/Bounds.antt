-- ===== src/State/Bounds.antt =====
-- How recording a round bounds the history that the loop keeps.
use space_elysiajs_orpc.Prelude.{
  ℕ, zero, suc, ◌+◌, ◌-◌, ◌≤◌, ◌<◌, Option, some, List, [], ◌∷◌, ◌++◌, ◌≡◌, refl, arith, All,
  All-append, length, length-append, length-drop, length-take, take, drop, if◌then◌else◌, ap, sym,
}
use space_elysiajs_orpc.Recurrence.{max_retained_findings}
use space_elysiajs_orpc.State.{
  HistoryEntry, LoopState, initial_state, RecordRoundInput, is_changes_requested, record_round,
}

-- At most 25 rounds are kept; each keeps at most ten findings, and none is of a later attempt than
-- the counter shows.
pub record IsBounded (s : LoopState) : Type 0 where
  pub rounds : length s.history ≤ 25
  pub entries :
      All
        (λ (e : HistoryEntry).
          (length e.findings ≤ max_retained_findings) × (e.attempt ≤ s.review_attempts))
        s.history

All-drop {ℓ κ} : {A : Type ℓ} (P : A → Type κ) (n : ℕ) (xs : List A) → All P xs → All P (drop n xs)
All-drop P zero xs h = h
All-drop P (suc n) [] h = h
All-drop P (suc n) (x ∷ xs) h = All-drop P n xs h.1

All-attempts :
    (l : List HistoryEntry) (n m : ℕ)
    → n ≤ m
    → All (λ (e : HistoryEntry). (length e.findings ≤ max_retained_findings) × (e.attempt ≤ n)) l
    → All (λ (e : HistoryEntry). (length e.findings ≤ max_retained_findings) × (e.attempt ≤ m)) l
All-attempts [] n m le h = tt
All-attempts (e ∷ l) n m le h = (omega arith, All-attempts l n m le h.1)

attempts_grow :
    (input : RecordRoundInput) → input.state.review_attempts ≤ (record_round input).review_attempts
unfolding record_round
attempts_grow input = ground arith

pub record_round-IsBounded :
    (input : RecordRoundInput) → IsBounded input.state → IsBounded (record_round input)
unfolding record_round
record_round-IsBounded input b = record {
  rounds = omega (
    arith,
    length-drop (length (input.state.history ++ _ ∷ []) - 25) (input.state.history ++ _ ∷ []),
  );
  entries = All-drop _ _ (input.state.history ++ _ ∷ []) (
      All-append _ input.state.history (_ ∷ [])
        (All-attempts input.state.history _ _ (attempts_grow input) b.entries)
        ((length-take max_retained_findings input.findings, attempts_grow input), tt));
}

pub initial_state-IsBounded : (issue : Option ℕ) → IsBounded (initial_state issue)
unfolding initial_state
initial_state-IsBounded issue = record { rounds = omega arith; entries = tt }

take-append-drop {ℓ} : {A : Type ℓ} (n : ℕ) (xs : List A) → take n xs ++ drop n xs ≡ xs
take-append-drop zero xs = refl
take-append-drop (suc n) [] = refl
take-append-drop (suc n) (x ∷ xs) = ap (λ l. x ∷ l) (take-append-drop n xs)

-- A round is recorded in full: the counter goes up by one exactly when changes were requested and
-- stays otherwise; the latest verdict and decision are those of the round; the history is the old one
-- with the round at its end, less at most the oldest round, and none unless there were already 25;
-- the round holds the commit, decision, verdict, time and attempt it was made under and the first
-- ten of its findings; and if the history had at most 25 rounds of at most ten findings, none of a
-- later attempt than was counted, it still does.
pub record_round_exact :
    (input : RecordRoundInput)
    → IsBounded input.state
    → let s = record_round input in
      (s.review_attempts
        ≡ input.state.review_attempts + (if is_changes_requested input.decision then 1 else 0))
      × (s.last_decision ≡ some input.decision)
      × (s.last_review_status ≡ some input.review_status)
      × ((dropped : List HistoryEntry) × (entry : HistoryEntry) × (input.state.history ++ entry ∷ []
            ≡ dropped ++ s.history)
          × (entry.head_sha ≡ input.head_sha)
          × (entry.decision ≡ input.decision)
          × (entry.attempt ≡ input.state.review_attempts)
          × (entry.review_status ≡ input.review_status)
          × (entry.at ≡ input.at)
          × (entry.findings ≡ take max_retained_findings input.findings)
          × (length dropped ≤ 1)
          × (length input.state.history < 25 → dropped ≡ []))
      × IsBounded s
unfolding record_round
record_round_exact input b =
    let entry : HistoryEntry = record {
      at = input.at;
      head_sha = input.head_sha;
      attempt = input.state.review_attempts;
      review_status = input.review_status;
      decision = input.decision;
      findings = take max_retained_findings input.findings;
    } in
    let all = input.state.history ++ entry ∷ [] in
    let n = length all - 25 in
    (
      ground arith,
      refl,
      refl,
      (
        take n all,
        entry,
        sym (take-append-drop n all),
        refl,
        refl,
        refl,
        refl,
        refl,
        refl,
        omega (arith, length-take n all, length-append input.state.history (entry ∷ []), b.rounds),
        λ few.
            let none_over : n ≡ 0 = omega (arith, length-append input.state.history (entry ∷ [])) in
            ap (λ k. take k all) none_over,
      ),
      record_round-IsBounded input b,
    )
