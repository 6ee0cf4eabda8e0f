-- ===== src/Recurrence/Similarity.antt =====
-- Whether two findings describe one defect does not depend on their order.
use Prim.Native.Nat.{ℕ}
use space_elysiajs_orpc.Prelude.{
  ◌+◌, String, Bool, false, Option, none, some, List, [], ◌∷◌, ◌++◌, ◌≡◌, refl, arith, includes,
  Distinct, Distinct-append, if◌then◌else◌, Bool-cases, eq_iff, inl, inr, ap,
}
use space_elysiajs_orpc.Recurrence.{
  FindingRecord, to_set, count_common, is_similar, file_differs, significant_words,
  significant_terms, findings_match,
}

count_common-nil : (a : List String) → count_common a [] ≡ 0
unfolding count_common
count_common-nil [] = refl
count_common-nil (x ∷ a) = omega (arith, count_common-nil a)

abbrev one_if : Bool → ℕ
one_if b = if b then 1 else 0

count_common-cons :
    (b a : List String) (x : String)
    → Distinct b
    → includes x a ≡ false
    → count_common b (x ∷ a) ≡ count_common b a + one_if (includes x b)
unfolding count_common
count_common-cons [] a x d n = refl
count_common-cons (y ∷ b) a x d n = ground (
  arith,
  count_common-cons b a x d.1 n,
  eq_iff x y,
  eq_iff y x,
  d.0,
  ap (λ s. includes s a),
  ap (λ s. includes s b),
)

count_common_comm :
    (a b : List String) → Distinct a → Distinct b → count_common a b ≡ count_common b a
unfolding count_common
count_common_comm [] b d e = ground (arith, count_common-nil b)
count_common_comm (x ∷ a) b d e =
    ground (arith, count_common_comm a b d.1 e, count_common-cons b a x e d.0)

to_set-Distinct : (words seen : List String) → Distinct seen → Distinct (to_set seen words)
unfolding to_set
to_set-Distinct [] seen d = d
to_set-Distinct (w ∷ words) seen d = elim (Bool-cases (includes w seen)) [
  | inl e ↦ rw e (to_set-Distinct words seen d)
  | inr e ↦ rw e (to_set-Distinct words (seen ++ w ∷ []) (Distinct-append seen w d e))
]

significant_terms-Distinct :
    (lower : String → String) (text : String) → Distinct (significant_terms lower text)
unfolding significant_terms
significant_terms-Distinct lower text = to_set-Distinct (significant_words lower text) [] tt

is_similar_comm : (a b : List String) → Distinct a → Distinct b → is_similar a b ≡ is_similar b a
unfolding is_similar
is_similar_comm a b d e = ground (arith, count_common_comm a b d e)

file_differs_comm : (s t : Option String) → file_differs s t ≡ file_differs t s
file_differs_comm (some s) (some t) = ground (arith, eq_iff s t, eq_iff t s)
file_differs_comm none none = refl
file_differs_comm none (some t) = refl
file_differs_comm (some s) none = refl

-- Matching is symmetric, whichever finding is the current one and whatever the letter case does.
pub findings_match_comm :
    (lower : String → String) (a b : FindingRecord)
    → findings_match lower a b ≡ findings_match lower b a
unfolding findings_match
findings_match_comm lower a b = ground (
  arith,
  file_differs_comm a.file b.file,
  is_similar_comm (significant_terms lower a.description) (significant_terms lower b.description)
      (significant_terms-Distinct lower a.description)
      (significant_terms-Distinct lower b.description),
)
