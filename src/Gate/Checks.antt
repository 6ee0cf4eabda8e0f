-- ===== src/Gate/Checks.antt =====
-- Which checks the gate waits for.
use space_elysiajs_orpc.Prelude.{
  String, Bool, true, List, [], ◌∷◌, ◌≡◌, ◌↔◌, ◌⊎◌, arith, filter, is_empty, map, All,
}
use space_elysiajs_orpc.Gate.{CheckConclusion, CheckState, observe, is_failing, is_pending}

-- Neither failing nor pending: passed, skipped or neutral.
abbrev pub HasPassed : CheckConclusion → Type 0
HasPassed c =
    (c ≡ CheckConclusion.success) ⊎ (c ≡ CheckConclusion.skipped) ⊎ (c ≡ CheckConclusion.neutral)

abbrev pub failing_in : List CheckState → Bool
failing_in l = is_empty (filter (λ (c : CheckState). is_failing c.conclusion) l)

abbrev pub pending_in : List CheckState → Bool
pending_in l = is_empty (filter (λ (c : CheckState). is_pending c.conclusion) l)

pub passed_iff :
    (checks : List CheckState) (names : List String)
    → ((failing_in (map (observe checks) names) ≡ true)
        × (pending_in (map (observe checks) names) ≡ true))
      ↔ All (λ name. HasPassed (observe checks name).conclusion) names
passed_iff checks [] = ground arith
passed_iff checks (name ∷ names) = ground (arith, passed_iff checks names)
