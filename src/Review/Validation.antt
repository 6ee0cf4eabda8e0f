-- ===== src/Review/Validation.antt =====
-- What the validation of an agent's output guarantees.
use Prim.Native.Char.{Char, code}
use space_elysiajs_orpc.Prelude.{
  String, true, false, List, [], ◌∷◌, map, ◌≡◌, refl, inl, inr, ◌∙◌, All, length, length-map,
  Bool-cases,
}
use space_elysiajs_orpc.Policy.{Severity}
use space_elysiajs_orpc.Review.{
  Finding, ParseOutcome, blocked, is_control, sanitise_text, blocked_result, Parsed, success,
  failure, sanitise_finding, outcome_of, parse_review_result,
}

-- The second text is the first without its control characters: these are left out, and every other
-- character is kept where it stood.
pub data Sifted : String → String → Type 0 where
  at_end : Sifted String.[] String.[]
  left_out :
      (c : Char) (s t : String)
      → is_control (code c) ≡ true
      → Sifted s t
      → Sifted (String.◌∷◌ c s) t
  kept :
      (c : Char) (s t : String)
      → is_control (code c) ≡ false
      → Sifted s t
      → Sifted (String.◌∷◌ c s) (String.◌∷◌ c t)

sanitise_text-Sifted : (s : String) → Sifted s (sanitise_text s)
unfolding sanitise_text
sanitise_text-Sifted String.[] = Sifted.at_end
sanitise_text-Sifted (String.◌∷◌ c s) = elim (Bool-cases (is_control (code c))) [
  | inl e ↦ rw e (Sifted.left_out c s _ e (sanitise_text-Sifted s))
  | inr e ↦ rw e (Sifted.kept c s _ e (sanitise_text-Sifted s))
]

-- The second finding is the first with its texts sifted.
abbrev pub IsKept : Finding → Finding → Type 0
IsKept f g =
    (g.severity ≡ f.severity)
    × (g.file ≡ f.file)
    × (g.line ≡ f.line)
    × (g.source ≡ f.source)
    × (g.category ≡ f.category)
    × Sifted f.description g.description
    × Sifted f.suggested_action g.suggested_action

-- The same number of findings, each of the second list that of the first in its place.
abbrev pub AreKept : List Finding → List Finding → Type 0
AreKept [] [] = Unit
AreKept [] (g ∷ gs) = ⊥
AreKept (f ∷ fs) [] = ⊥
AreKept (f ∷ fs) (g ∷ gs) = IsKept f g × AreKept fs gs

sanitise_finding-AreKept : (l : List Finding) → AreKept l (map sanitise_finding l)
unfolding sanitise_finding
sanitise_finding-AreKept [] = tt
sanitise_finding-AreKept (f ∷ l) = (
  (
    refl,
    refl,
    refl,
    refl,
    refl,
    sanitise_text-Sifted f.description,
    sanitise_text-Sifted f.suggested_action,
  ),
  sanitise_finding-AreKept l,
)

abbrev IsHigh : Finding → Type 0
IsHigh f = f.severity ≡ Severity.high

finding_of-IsHigh :
    (errors : List String)
    → All IsHigh (blocked_result "Review result failed validation." errors).findings
unfolding blocked_result
finding_of-IsHigh [] = tt
finding_of-IsHigh (e ∷ l) = (refl, finding_of-IsHigh l)

-- What an outcome owes to the schema's verdict.
abbrev pub Answers : Parsed → ParseOutcome → Type 0
Answers (failure issues) o =
    (o.ok ≡ false)
    × (o.result.status ≡ blocked)
    × (length o.errors ≡ length issues)
    × (length o.result.findings ≡ length issues)
    × All (λ (f : Finding). f.severity ≡ Severity.high) o.result.findings
Answers (success r) o =
    (o.ok ≡ true)
    × (o.result.status ≡ r.status)
    × (o.errors ≡ [])
    × Sifted r.summary o.result.summary
    × AreKept r.findings o.result.findings

outcome_of-Answers : (p : Parsed) → Answers p (outcome_of p)
unfolding outcome_of blocked_result
outcome_of-Answers (failure issues) =
    (refl, refl, length-map _ issues, length-map _ _ ∙ length-map _ issues, finding_of-IsHigh _)
outcome_of-Answers (success r) =
    (refl, refl, refl, sanitise_text-Sifted r.summary, sanitise_finding-AreKept r.findings)

-- Whatever an agent returns: output that fails the schema gives a blocked review, not ok, with one
-- error and one finding of severity high for each issue; output that passes is ok without errors and
-- keeps its status and its findings, each with its severity, file, line, source and category; of the
-- summary and of the findings' descriptions and actions exactly the control characters are left out,
-- tab, line feed and carriage return not counted as such, and all else stays in order.
pub parse_review_result-Answers :
    {Raw : Type 0} (safe_parse : Raw → Parsed) (raw : Raw)
    → Answers (safe_parse raw) (parse_review_result safe_parse raw)
unfolding parse_review_result
parse_review_result-Answers safe_parse raw = outcome_of-Answers (safe_parse raw)
