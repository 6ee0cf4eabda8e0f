-- ===== src/State/Comment/Printing.antt =====
-- The printed state never has a backtick at the start of a line, so no fence can close inside it.
use Prim.Native.Char.{Char, code}
use Prim.Native.String
use space_elysiajs_orpc.Prelude.{
  ℕ, zero, suc, ◌+◌, ◌/◌, ◌%◌, String, Bool, true, false, Option, none, some, List, [], ◌∷◌, map,
  eqb, ltb, concat, join, show, ◌≡◌, refl, arith, ap, ◌∙◌, All, not, ◌||◌,
}
use space_elysiajs_orpc.Prelude.Gluing.{glue, append-eq-glue, concat-eq-glue_all}
use space_elysiajs_orpc.Prelude.Text.Digits.{each, each-append, each-if, each-else, each-show}
use space_elysiajs_orpc.Recurrence.{FindingRecord}
use space_elysiajs_orpc.State.{LoopState, HistoryEntry}
use space_elysiajs_orpc.State.Json.{
  escaped, escape, quoted, spaces, block, member, or_null, severity_name, status_name,
  decision_name, print_finding, print_entry, stringify, finding_members, entry_members,
  state_members, unicode_escape, hex_digit,
}
use space_elysiajs_orpc.State.Comment.Reading.{fenced, fenced_start}

abbrev Fenceless : String → Type 0
Fenceless s = fenced true s ≡ false

fenced-glue :
    (after : Bool) (s t : String)
    → fenced after s ≡ false
    → Fenceless t
    → fenced after (glue s t) ≡ false
unfolding fenced
fenced-glue true String.[] t h k = k
fenced-glue false String.[] t h k = fenced_start t k
fenced-glue after (String.◌∷◌ c s) t h k = ground (arith, fenced-glue (eqb (code c) 10) s t)

Fenceless-append : (s t : String) → Fenceless s → Fenceless t → Fenceless (String.◌++◌ s t)
Fenceless-append s t h k = ap (fenced true) (append-eq-glue s t) ∙ fenced-glue true s t h k

Fenceless-concat : (l : List String) → All Fenceless l → Fenceless (concat l)
unfolding fenced
Fenceless-concat [] h = refl
Fenceless-concat (s ∷ l) h = Fenceless-append s (concat l) h.0 (Fenceless-concat l h.1)

Fenceless-join :
    (sep : String) (l : List String) → Fenceless sep → All Fenceless l → Fenceless (join sep l)
unfolding fenced
Fenceless-join sep [] h k = refl
Fenceless-join sep (s ∷ []) h k = k.0
Fenceless-join sep (s ∷ t ∷ l) h k =
    Fenceless-append s _ k.0
      (Fenceless-append sep (join sep (t ∷ l)) h (Fenceless-join sep (t ∷ l) h k.1))

-- A character that is neither a line feed nor a backtick, and one that is no line feed.
abbrev plain : ℕ → Bool
plain c = not (eqb c 10 || eqb c b'`')

abbrev flat : ℕ → Bool
flat c = not (eqb c 10)

plain-Fenceless : (s : String) → each plain s ≡ true → Fenceless s
unfolding fenced
plain-Fenceless String.[] h = refl
plain-Fenceless (String.◌∷◌ c s) h = ground (arith, fenced_start s, plain-Fenceless s)

flat-fenced : (s : String) → each flat s ≡ true → fenced false s ≡ false
unfolding fenced
flat-fenced String.[] h = refl
flat-fenced (String.◌∷◌ c s) h = ground (arith, flat-fenced s)

show-Fenceless : (n : ℕ) → Fenceless (show n)
show-Fenceless n = plain-Fenceless (show n) (each-show plain n refl)

hex_digit-flat : (n : ℕ) → each flat (hex_digit n) ≡ true
hex_digit-flat n = each-if flat (ltb n 10) _ _ (each-show flat n refl) (
    each-if flat (eqb n 10) "a" _ refl (
      each-if flat (eqb n 11) "b" _ refl (
        each-if flat (eqb n 12) "c" _ refl
          (each-if flat (eqb n 13) "d" _ refl (each-if flat (eqb n 14) "e" "f" refl refl)))))

unicode_escape-flat : (n : ℕ) → each flat (unicode_escape n) ≡ true
unicode_escape-flat n =
    let low = String.◌++◌ (hex_digit (n % 16)) "" in
    each-append flat "\\u00" (String.◌++◌ (hex_digit (n / 16)) low) refl (
      each-append flat (hex_digit (n / 16)) low (hex_digit-flat (n / 16))
        (each-append flat (hex_digit (n % 16)) "" (hex_digit-flat (n % 16)) refl))

escaped-flat : (c : Char) → each flat (escaped c) ≡ true
unfolding escaped
escaped-flat c =
    let n = code c in
    each-if flat (eqb n b'"') "\\\"" _ refl (
      each-if flat (eqb n b'\\') "\\\\" _ refl (
        each-if flat (eqb n 8) "\\b" _ refl (
          each-if flat (eqb n 12) "\\f" _ refl (
            each-else flat (eqb n 10) "\\n" _ refl (λ e. each-if flat (eqb n 13) "\\r" _ refl (
              each-if flat (eqb n 9) "\\t" _ refl (
                each-if flat (ltb n 32) (unicode_escape n) _ (unicode_escape-flat n)
                  (ground arith))))))))

escape-flat : (s : String) → each flat (escape s) ≡ true
unfolding escape
escape-flat String.[] = refl
escape-flat (String.◌∷◌ c s) =
    each-append flat (escaped c) (escape s) (escaped-flat c) (escape-flat s)

quoted-Fenceless : (s : String) → Fenceless (quoted s)
unfolding quoted fenced
quoted-Fenceless s =
    ap (fenced true) (concat-eq-glue_all ("\"" ∷ escape s ∷ "\"" ∷ []))
    ∙ fenced-glue false (escape s) "\"" (flat-fenced (escape s) (escape-flat s)) refl

spaces-Fenceless : (n : ℕ) → Fenceless (spaces n)
unfolding spaces fenced
spaces-Fenceless zero = refl
spaces-Fenceless (suc n) = Fenceless-append " " (spaces n) refl (spaces-Fenceless n)

member-Fenceless : (key value : String) → Fenceless value → Fenceless (member key value)
unfolding member fenced
member-Fenceless key value h =
    Fenceless-concat (quoted key ∷ ": " ∷ value ∷ []) (quoted-Fenceless key, (refl, (h, tt)))

block-Fenceless :
    (opening closing : String) (depth : ℕ) (items : List String)
    → Fenceless opening
    → Fenceless closing
    → All Fenceless items
    → Fenceless (block opening closing depth items)
unfolding block fenced
block-Fenceless opening closing depth [] h k l =
    Fenceless-concat (opening ∷ closing ∷ []) (h, (k, tt))
block-Fenceless opening closing depth (item ∷ items) h k l =
    let inner = spaces-Fenceless (depth + 2) in
    let separator = Fenceless-concat (",\n" ∷ spaces (depth + 2) ∷ []) (refl, (inner, tt)) in
    Fenceless-concat
      (opening
        ∷ "\n"
        ∷ spaces (depth + 2)
        ∷ join (concat (",\n" ∷ spaces (depth + 2) ∷ [])) (item ∷ items)
        ∷ "\n"
        ∷ spaces depth
        ∷ closing
        ∷ [])
      (
        h,
        (
          refl,
          (
            inner,
            (
              Fenceless-join _ (item ∷ items) separator l,
              (refl, (spaces-Fenceless depth, (k, tt))),
            ),
          ),
        ),
      )

object-Fenceless :
    (depth : ℕ) (members : List String)
    → All Fenceless members
    → Fenceless (block "{" "}" depth members)
unfolding fenced
object-Fenceless depth members h = block-Fenceless "{" "}" depth members refl refl h

array-Fenceless :
    (depth : ℕ) (items : List String) → All Fenceless items → Fenceless (block "[" "]" depth items)
unfolding fenced
array-Fenceless depth items h = block-Fenceless "[" "]" depth items refl refl h

version-Fenceless : Fenceless "1"
unfolding fenced
version-Fenceless = refl

or_null-Fenceless {ℓ} :
    {A : Type ℓ} (print : A → String) (o : Option A)
    → ((a : A) → Fenceless (print a))
    → Fenceless (or_null print o)
unfolding or_null fenced
or_null-Fenceless print none h = refl
or_null-Fenceless print (some a) h = h a

All-map {ℓ} :
    {A : Type ℓ} (print : A → String) (l : List A)
    → ((a : A) → Fenceless (print a))
    → All Fenceless (map print l)
All-map print [] h = tt
All-map print (a ∷ l) h = (h a, All-map print l h)

print_finding-Fenceless : (f : FindingRecord) → Fenceless (print_finding f)
unfolding print_finding
print_finding-Fenceless f = object-Fenceless 8 (finding_members f) (
  member-Fenceless "severity" _ (quoted-Fenceless (severity_name f.severity)),
  (
    member-Fenceless "file" _ (or_null-Fenceless quoted f.file quoted-Fenceless),
    (
      member-Fenceless "description" _ (quoted-Fenceless f.description),
      (member-Fenceless "category" _ (quoted-Fenceless f.category), tt),
    ),
  ),
)

print_entry-Fenceless : (e : HistoryEntry) → Fenceless (print_entry e)
unfolding print_entry
print_entry-Fenceless e = object-Fenceless 4 (entry_members e) (
  member-Fenceless "at" _ (quoted-Fenceless e.at),
  (
    member-Fenceless "headSha" _ (quoted-Fenceless e.head_sha),
    (
      member-Fenceless "attempt" _ (show-Fenceless e.attempt),
      (
        member-Fenceless "reviewStatus" _ (quoted-Fenceless (status_name e.review_status)),
        (
          member-Fenceless "decision" _ (quoted-Fenceless (decision_name e.decision)),
          (
            member-Fenceless "findings" _ (
                array-Fenceless 6 (map print_finding e.findings)
                  (All-map print_finding e.findings print_finding-Fenceless)),
            tt,
          ),
        ),
      ),
    ),
  ),
)

pub stringify-Fenceless : (s : LoopState) → Fenceless (stringify s)
unfolding stringify
stringify-Fenceless s = object-Fenceless 0 (state_members s) (
  member-Fenceless "version" "1" version-Fenceless,
  (
    member-Fenceless "issue" _ (or_null-Fenceless show s.issue show-Fenceless),
    (
      member-Fenceless "reviewAttempts" _ (show-Fenceless s.review_attempts),
      (
        member-Fenceless "lastReviewStatus" _ (
            or_null-Fenceless (λ r. quoted (status_name r)) s.last_review_status
              (λ r. quoted-Fenceless (status_name r))),
        (
          member-Fenceless "lastDecision" _ (
              or_null-Fenceless (λ d. quoted (decision_name d)) s.last_decision
                (λ d. quoted-Fenceless (decision_name d))),
          (
            member-Fenceless "history" _ (
                array-Fenceless 2 (map print_entry s.history)
                  (All-map print_entry s.history print_entry-Fenceless)),
            tt,
          ),
        ),
      ),
    ),
  ),
)

-- What follows the brace that every printed state begins with.
pub stringify-brace : (s : LoopState) → (raw : String) × (stringify s ≡ glue "{" raw)
unfolding stringify block
stringify-brace s = (_, append-eq-glue "{" _)
