-- ===== src/Recurrence.antt =====
-- tooling/loop/src/recurrence.ts: which findings of a round were raised in an earlier one. A text is
-- a sequence of code points, where JavaScript counts UTF-16 units.
pub mod Similarity
pub mod Occurrences
pub mod Detection
use Prim.Native.Char.{Char, code}
use Prim.Native.String
use space_elysiajs_orpc.Prelude.{
  ℕ, zero, suc, ◌+◌, ◌*◌, String, Bool, true, false, Option, none, some, List, [], ◌∷◌, ◌++◌, map,
  leb, ltb, eqb, ◌&&◌, ◌||◌, if◌then◌else◌, filter, any, is_empty, not, ◌==◌, length, includes, min,
}
use space_elysiajs_orpc.Prelude.Assoc.{has, set, values}
use space_elysiajs_orpc.Policy.{Severity}
use space_elysiajs_orpc.Review.{Finding}

pub record FindingRecord : Type 0 where
  pub severity : Severity
  pub file : Option String
  pub description : String
  pub category : String

abbrev pub max_retained_findings : ℕ
max_retained_findings = 10

-- `text.slice(0, n)`
abbrev prefix : ℕ → String → String
prefix zero s = String.[]
prefix (suc n) String.[] = String.[]
prefix (suc n) (String.◌∷◌ c s) = String.◌∷◌ c (prefix n s)

unfoldable pub to_finding_record : Finding → FindingRecord
to_finding_record finding = record {
  severity = finding.severity;
  file = finding.file;
  description = prefix 320 finding.description;
  category = finding.category;
}

stopwords : List String
stopwords =
    "this" ∷ "that" ∷ "these" ∷ "those" ∷ "with" ∷ "from" ∷ "into" ∷ "across" ∷ "only" ∷ "never"
    ∷ "every" ∷ "each" ∷ "both" ∷ "their" ∷ "they" ∷ "them" ∷ "there" ∷ "here" ∷ "over" ∷ "under"
    ∷ "been" ∷ "were" ∷ "have" ∷ "does" ∷ "should" ∷ "would" ∷ "could" ∷ "also" ∷ "when" ∷ "which"
    ∷ "while" ∷ "still" ∷ "more" ∷ "most" ∷ "same" ∷ "other" ∷ "than" ∷ "then" ∷ "about" ∷ []

is_term_char : ℕ → Bool
is_term_char c = (leb b'a' c && leb c b'z') || (leb b'0' c && leb c b'9')

-- The replacement of what is not a term character by a blank, and the split on blanks: whatever is
-- no term character ends a word. Empty words are dropped by the filter on the length.
words_from : String → String → List String
words_from word String.[] = word ∷ []
words_from word (String.◌∷◌ c s) =
    let more = words_from (String.◌++◌ word (String.◌∷◌ c String.[])) s in
    let ended = word ∷ words_from "" s in if is_term_char (code c) then more else ended

-- `word.length >= 4`
abbrev is_long : String → Bool
is_long (String.◌∷◌ _ (String.◌∷◌ _ (String.◌∷◌ _ (String.◌∷◌ _ _)))) = true
is_long _ = false

-- `new Set(words)`, in insertion order.
unfoldable pub to_set : List String → List String → List String
to_set seen [] = seen
to_set seen (word ∷ words) = to_set (if includes word seen then seen else seen ++ word ∷ []) words

pub count_common : List String → List String → ℕ
count_common [] b = 0
count_common (term ∷ a) b = (if includes term b then 1 else 0) + count_common a b

-- `overlapCoefficient(a, b) >= 0.5`: the quotient of two numbers below 2^52 reaches one half exactly
-- when twice the one reaches the other.
pub is_similar : List String → List String → Bool
is_similar a b =
    if is_empty a || is_empty b
    then false
    else leb (min (length a) (length b)) (2 * count_common a b)

abbrev file_differs : Option String → Option String → Bool
file_differs (some s) (some t) = not (s == t)
file_differs _ _ = false

pub record RecurrenceOccurrence : Type 0 where
  pub attempt : ℕ
  pub head_sha : String

pub record RecurringFinding : Type 0 where
  pub finding : Finding
  pub occurrences : List RecurrenceOccurrence

pub record HistoryFindingsEntry : Type 0 where
  pub head_sha : String
  pub attempt : ℕ
  pub findings : List FindingRecord

-- `toLowerCase` is the parameter.
module _ (lower : String → String) where
  significant_words : String → List String
  unfolding words_from is_term_char stopwords
  significant_words text =
      filter (λ w. is_long w && not (includes w stopwords)) (words_from "" (lower text))

  pub significant_terms : String → List String
  unfolding significant_words to_set
  significant_terms text = to_set [] (significant_words text)

  unfoldable pub findings_match : FindingRecord → FindingRecord → Bool
  unfolding significant_terms is_similar count_common
  findings_match a b =
      if file_differs a.file b.file
      then false
      else is_similar (significant_terms a.description) (significant_terms b.description)

  -- The body and the loop over `priorAttempts`.
  pub note_occurrence :
      FindingRecord
      → List (String × RecurrenceOccurrence)
      → HistoryFindingsEntry
      → List (String × RecurrenceOccurrence)
  note_occurrence record' m entry =
      if has m entry.head_sha
      then m
      else if any (findings_match record') entry.findings
      then set m entry.head_sha (record { attempt = entry.attempt; head_sha = entry.head_sha })
      else m

  pub occurrences_from :
      FindingRecord
      → List (String × RecurrenceOccurrence)
      → List HistoryFindingsEntry
      → List (String × RecurrenceOccurrence)
  occurrences_from record' m [] = m
  occurrences_from record' m (entry ∷ rest) =
      occurrences_from record' (note_occurrence record' m entry) rest

  pub recurring_from : List HistoryFindingsEntry → List Finding → List RecurringFinding
  recurring_from prior [] = []
  recurring_from prior (finding ∷ rest) =
      let m = occurrences_from (to_finding_record finding) [] prior in
      (if is_empty m then [] else record { finding = finding; occurrences = values m } ∷ [])
      ++ recurring_from prior rest

  unfoldable pub detect_recurrence :
      List Finding → List HistoryFindingsEntry → String → List RecurringFinding
  unfolding recurring_from occurrences_from note_occurrence
  detect_recurrence current history current_head_sha =
      recurring_from
        (filter
          (λ (e : HistoryFindingsEntry).
            not (e.head_sha == current_head_sha) && not (is_empty e.findings))
          history)
        current
