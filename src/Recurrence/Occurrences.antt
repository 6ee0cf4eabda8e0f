-- ===== src/Recurrence/Occurrences.antt =====
-- The map of the occurrences of one finding.
use space_elysiajs_orpc.Prelude.{
  String, true, false, List, [], ◌∷◌, map, Memᴰ, ◌≡◌, ◌≢◌, refl, arith, any, is_empty, eq_iff,
  Bool-cases, Distinct, inl, inr, All, includes,
}
use space_elysiajs_orpc.Prelude.Assoc.{
  has, has-eq-includes, values, keys, includes-keys-set, Distinct-keys-set, All-set,
}
use space_elysiajs_orpc.Recurrence.{
  FindingRecord, RecurrenceOccurrence, HistoryFindingsEntry, findings_match, note_occurrence,
  occurrences_from,
}

pub not-nil_of_values :
    (m : List (String × RecurrenceOccurrence)) → is_empty m ≡ false → values m ≢ []
not-nil_of_values [] h = cc
not-nil_of_values (o ∷ m) h = λ e. cc

pub not-empty_of_includes :
    (m : List (String × RecurrenceOccurrence)) (k : String)
    → includes k (keys m) ≡ true
    → is_empty m ≡ false
not-empty_of_includes [] k h = cc
not-empty_of_includes (o ∷ m) k h = refl

module _ (lower : String → String) (record' : FindingRecord)
    (prior : List HistoryFindingsEntry) where
  abbrev pub Hits : HistoryFindingsEntry → Type 0
  Hits e = any (findings_match lower record') e.findings ≡ true

  -- An entry of the map: it stands under its own commit, and a listed round of that commit and
  -- attempt raised a matching finding.
  abbrev pub IsEvidence : String × RecurrenceOccurrence → Type 0
  IsEvidence o =
      (e : HistoryFindingsEntry) × (o.1.head_sha ≡ o.0)
      × Memᴰ e prior
      × (e.head_sha ≡ o.0)
      × (e.attempt ≡ o.1.attempt)
      × Hits e

  abbrev pub Commits : List (String × RecurrenceOccurrence) → Type 0
  Commits m = All IsEvidence m × Distinct (keys m)

  note_occurrence-Commits :
      (m : List (String × RecurrenceOccurrence)) (e : HistoryFindingsEntry)
      → Memᴰ e prior
      → Commits m
      → Commits (note_occurrence lower record' m e)
  unfolding note_occurrence
  note_occurrence-Commits m e n (h, d) = elim (Bool-cases (has m e.head_sha)) [
    | inl p ↦ rw p (h, d)
    | inr p ↦ elim (Bool-cases (any (findings_match lower record') e.findings)) [
      | inr q ↦ rw (p, q) (h, d)
      | inl q ↦
          rw (p, q)
            (
              All-set IsEvidence m e.head_sha _ h (λ j s. (e, s, n, s, refl, q)),
              Distinct-keys-set m e.head_sha _ d,
            )
    ]
  ]

  pub occurrences_from-Commits :
      (rest : List HistoryFindingsEntry) (m : List (String × RecurrenceOccurrence))
      → ((e : HistoryFindingsEntry) → Memᴰ e rest → Memᴰ e prior)
      → Commits m
      → Commits (occurrences_from lower record' m rest)
  unfolding occurrences_from
  occurrences_from-Commits [] m n h = h
  occurrences_from-Commits (e ∷ rest) m n h =
      occurrences_from-Commits rest (note_occurrence lower record' m e) (λ f t. n f (Memᴰ.tail t))
        (note_occurrence-Commits m e (n e (Memᴰ.head refl)) h)

  -- Once noted, a commit stays noted; and a round that matches is noted.
  note_occurrence_keeps :
      (m : List (String × RecurrenceOccurrence)) (e : HistoryFindingsEntry) (k : String)
      → includes k (keys m) ≡ true
      → includes k (keys (note_occurrence lower record' m e)) ≡ true
  unfolding note_occurrence
  note_occurrence_keeps m e k h = ground (
    arith,
    includes-keys-set m e.head_sha k (record { attempt = e.attempt; head_sha = e.head_sha }),
  )

  note_occurrence_adds :
      (m : List (String × RecurrenceOccurrence)) (e : HistoryFindingsEntry)
      → Hits e
      → includes e.head_sha (keys (note_occurrence lower record' m e)) ≡ true
  unfolding note_occurrence
  note_occurrence_adds m e h = ground (
    arith,
    has-eq-includes m e.head_sha,
    eq_iff e.head_sha e.head_sha,
    includes-keys-set m e.head_sha e.head_sha
        (record { attempt = e.attempt; head_sha = e.head_sha }),
  )

  occurrences_from_keeps :
      (rest : List HistoryFindingsEntry) (m : List (String × RecurrenceOccurrence)) (k : String)
      → includes k (keys m) ≡ true
      → includes k (keys (occurrences_from lower record' m rest)) ≡ true
  unfolding occurrences_from
  occurrences_from_keeps [] m k h = h
  occurrences_from_keeps (e ∷ rest) m k h =
      occurrences_from_keeps rest (note_occurrence lower record' m e) k
        (note_occurrence_keeps m e k h)

  pub occurrences_from_adds :
      (rest : List HistoryFindingsEntry) (m : List (String × RecurrenceOccurrence))
      (e : HistoryFindingsEntry)
      → Memᴰ e rest
      → Hits e
      → includes e.head_sha (keys (occurrences_from lower record' m rest)) ≡ true
  unfolding occurrences_from
  occurrences_from_adds [] m e n h = elim n [ ]
  occurrences_from_adds (f ∷ rest) m e (Memᴰ.tail n) h =
      occurrences_from_adds rest (note_occurrence lower record' m f) e n h
  occurrences_from_adds (f ∷ rest) m e (Memᴰ.head q) h =
      occurrences_from_keeps rest (note_occurrence lower record' m f) e.head_sha
        (rw q (note_occurrence_adds m f (rw q at h)))

  pub keys-eq-map_head_sha :
      (m : List (String × RecurrenceOccurrence))
      → All IsEvidence m
      → keys m ≡ map (λ (o : RecurrenceOccurrence). o.head_sha) (values m)
  keys-eq-map_head_sha [] h = refl
  keys-eq-map_head_sha ((k, o) ∷ m) (h, t) = ground (arith, h.1, keys-eq-map_head_sha m t)

  pub All-values :
      (P : RecurrenceOccurrence → Type 0) (m : List (String × RecurrenceOccurrence))
      → ((o : String × RecurrenceOccurrence) → IsEvidence o → P o.1)
      → All IsEvidence m
      → All P (values m)
  All-values P [] f h = tt
  All-values P (o ∷ m) f h = (f o h.0, All-values P m f h.1)
