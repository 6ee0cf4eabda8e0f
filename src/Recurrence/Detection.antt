-- ===== src/Recurrence/Detection.antt =====
-- Which recurrences are reported.
use mathlib.Core.List.Memᴰ
use space_elysiajs_orpc.Prelude.{
  String, Bool, true, false, List, [], ◌∷◌, ◌++◌, map, Memᴰ, ◌≡◌, ◌≢◌, refl, sym, ◌∙◌, arith, any,
  filter, not, is_empty, ◌==◌, eq_iff, if◌then◌else◌, mem-of_filter, mem-filter_of_mem, Distinct,
  inl, inr, ◌⊎◌, All, subst, ◌&&◌, includes,
}
use space_elysiajs_orpc.Prelude.Assoc.{values}
use space_elysiajs_orpc.Review.{Finding}
use space_elysiajs_orpc.Recurrence.{
  to_finding_record, RecurrenceOccurrence, RecurringFinding, HistoryFindingsEntry, findings_match,
  occurrences_from, recurring_from, detect_recurrence,
}
use space_elysiajs_orpc.Recurrence.Occurrences.{
  not-nil_of_values, not-empty_of_includes, Commits, occurrences_from-Commits,
  occurrences_from_adds, keys-eq-map_head_sha, All-values,
}

mem-head_if :
    {A : Type 0} (b : Bool) (x y : A) (l : List A)
    → Memᴰ x ((if b then [] else y ∷ []) ++ l)
    → ((b ≡ false) × (x ≡ y)) ⊎ Memᴰ x l
mem-head_if true x y l m = inr m
mem-head_if false x y l m = elim (Memᴰ.cases_cons m) [ inl q ↦ inl (refl, q) | inr t ↦ inr t ]

mem-if_head :
    {A : Type 0} (b : Bool) (y : A) (l : List A)
    → b ≡ false
    → Memᴰ y ((if b then [] else y ∷ []) ++ l)
mem-if_head true y l e = cc
mem-if_head false y l e = Memᴰ.head refl

module _ (lower : String → String) (history : List HistoryFindingsEntry)
    (current_sha : String) where
  -- An earlier round of another commit that raised a matching finding.
  abbrev pub IsEarlierRound : Finding → HistoryFindingsEntry → Type 0
  IsEarlierRound f e =
      Memᴰ e history
      × (e.head_sha ≢ current_sha)
      × (any (findings_match lower (to_finding_record f)) e.findings ≡ true)

  -- What a report owes: its finding is current, and its occurrences, at least one and none of a
  -- commit twice, are earlier rounds of other commits.
  pub record IsJustified (current : List Finding) (r : RecurringFinding) : Type 0 where
    pub raised : Memᴰ r.finding current
    pub recurs : r.occurrences ≢ []
    pub apart : Distinct (map (λ (o : RecurrenceOccurrence). o.head_sha) r.occurrences)
    pub rounds :
        All
          (λ (o : RecurrenceOccurrence).
            (e : HistoryFindingsEntry) × IsEarlierRound r.finding e
            × (e.head_sha ≡ o.head_sha)
            × (e.attempt ≡ o.attempt))
          r.occurrences

  is_prior : HistoryFindingsEntry → Bool
  is_prior e = not (e.head_sha == current_sha) && not (is_empty e.findings)

  is_prior_ne : (e : HistoryFindingsEntry) → is_prior e ≡ true → e.head_sha ≢ current_sha
  unfolding is_prior
  is_prior_ne e h = ground (arith, eq_iff e.head_sha current_sha)

  is_prior_of_hit :
      (f : Finding) (e : HistoryFindingsEntry) → IsEarlierRound f e → is_prior e ≡ true
  unfolding is_prior
  is_prior_of_hit f e (_, n, h) = ground (arith, eq_iff e.head_sha current_sha)

  abbrev prior : List HistoryFindingsEntry
  prior = filter is_prior history

  found : Finding → List (String × RecurrenceOccurrence)
  found f = occurrences_from lower (to_finding_record f) [] prior

  found-Commits : (f : Finding) → Commits lower (to_finding_record f) prior (found f)
  unfolding found
  found-Commits f =
      occurrences_from-Commits lower (to_finding_record f) prior prior [] (λ e m. m) (tt, tt)

  found-IsJustified :
      (f : Finding) (current : List Finding)
      → Memᴰ f current
      → is_empty (found f) ≡ false
      → IsJustified current (record { finding = f; occurrences = values (found f) })
  found-IsJustified f current m n =
      let (h, d) = found-Commits f in
      record {
        raised = m;
        recurs = not-nil_of_values (found f) n;
        apart =
            subst Distinct (keys-eq-map_head_sha lower (to_finding_record f) prior (found f) h) d;
        rounds =
            All-values lower (to_finding_record f) prior _ (found f)
              (λ o (e, same, listed, sha, attempt, hit).
                let (inside, p) = mem-of_filter is_prior e history listed in
                (e, (inside, is_prior_ne e p, hit), sha ∙ sym same, attempt))
              h;
      }

  recurring_from_sound :
      (fs current : List Finding) (r : RecurringFinding)
      → ((f : Finding) → Memᴰ f fs → Memᴰ f current)
      → Memᴰ r (recurring_from lower prior fs)
      → IsJustified current r
  unfolding recurring_from found
  recurring_from_sound [] current r n m = elim m [ ]
  recurring_from_sound (f ∷ fs) current r n m = elim (mem-head_if (is_empty (found f)) r _ _ m) [
    | inl (some_found, q) ↦
        subst (IsJustified current) (sym q)
          (found-IsJustified f current (n f (Memᴰ.head refl)) some_found)
    | inr t ↦ recurring_from_sound fs current r (λ g k. n g (Memᴰ.tail k)) t
  ]

  abbrev pub IsReported : List RecurringFinding → Finding → HistoryFindingsEntry → Type 0
  IsReported reported f e =
      (r : RecurringFinding) × Memᴰ r reported
      × (r.finding ≡ f)
      × (includes e.head_sha (map (λ (o : RecurrenceOccurrence). o.head_sha) r.occurrences) ≡ true)

  recurring_from_complete :
      (fs : List Finding) (f : Finding) (e : HistoryFindingsEntry)
      → Memᴰ f fs
      → IsEarlierRound f e
      → IsReported (recurring_from lower prior fs) f e
  unfolding recurring_from found
  recurring_from_complete [] f e m h = elim m [ ]
  recurring_from_complete (g ∷ fs) f e (Memᴰ.tail m) h =
      let (r, n, q, i) = recurring_from_complete fs f e m h in (r, Memᴰ.append_right _ n, q, i)
  recurring_from_complete (g ∷ fs) f e (Memᴰ.head q) h =
      let h' = subst (λ z. IsEarlierRound z e) q h in
      let k =
        occurrences_from_adds lower (to_finding_record g) prior prior [] e
          (mem-filter_of_mem is_prior e history h'.0 (is_prior_of_hit g e h')) h'.2 in
      let named =
        keys-eq-map_head_sha lower (to_finding_record g) prior (found g) (found-Commits g).0 in
      (
        record { finding = g; occurrences = values (found g) },
        mem-if_head (is_empty (found g)) _ _ (not-empty_of_includes (found g) e.head_sha k),
        sym q,
        subst (λ l. includes e.head_sha l ≡ true) named k,
      )

  -- The recurrences reported for a round are exactly those that there are. Every report names a
  -- finding of the round, with at least one occurrence and none of a commit twice, each an earlier
  -- round of another commit which raised a finding that matches; and every finding of the round
  -- that matches one of an earlier round of another commit is reported with that commit.
  pub detect_recurrence_exact :
      (current : List Finding)
      → ((r : RecurringFinding)
          → Memᴰ r (detect_recurrence lower current history current_sha)
          → IsJustified current r)
        × ((f : Finding) (e : HistoryFindingsEntry)
            → Memᴰ f current
            → IsEarlierRound f e
            → IsReported (detect_recurrence lower current history current_sha) f e)
  unfolding detect_recurrence is_prior
  detect_recurrence_exact current = (
    λ r m. recurring_from_sound current current r (λ f n. n) m,
    λ f e. recurring_from_complete current f e,
  )
