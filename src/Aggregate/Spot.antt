-- ===== src/Aggregate/Spot.antt =====
-- tooling/loop/src/aggregate.ts, dedupe: what two findings with one key have in common.
use Prim.Native.Char.{Char, code}
use space_elysiajs_orpc.Prelude.{
  ◌==◌, eq_iff, Bool-cases, inl, inr, ℕ, List, map, includes, Distinct, All, ◌≢◌, String, Bool,
  true, false, Option, none, some, [], ◌∷◌, ◌≡◌, refl, ◌∙◌, sym, ap, arith, eqb, eqb_iff, not,
  concat,
}
use space_elysiajs_orpc.Prelude.Gluing.{glue, concat-eq-glue_all}
use space_elysiajs_orpc.Prelude.Text.Digits.{each, each-show}
use space_elysiajs_orpc.Review.{Finding}
use space_elysiajs_orpc.Aggregate.{or_empty, line_text, key}

-- 58 is the colon.
abbrev pub no_colon : ℕ → Bool
no_colon c = not (eqb c 58)

-- A text without a colon ends before the first colon.
before_colon :
    (k : Char) (a b s t : String)
    → code k ≡ 58
    → each no_colon a ≡ true
    → each no_colon b ≡ true
    → glue a (String.◌∷◌ k s) ≡ glue b (String.◌∷◌ k t)
    → (a ≡ b) × (s ≡ t)
before_colon k String.[] String.[] s t q h i e = (refl, cc)
before_colon k String.[] (String.◌∷◌ d b) s t q h i e =
    let same : k ≡ d = cc in absurd (ground (arith, eqb_iff (code d) 58, ap code same))
before_colon k (String.◌∷◌ c a) String.[] s t q h i e =
    let same : c ≡ k = cc in absurd (ground (arith, eqb_iff (code c) 58, ap code same))
before_colon k (String.◌∷◌ c a) (String.◌∷◌ d b) s t q h i e =
    let head : c ≡ d = cc in
    let tail : glue a (String.◌∷◌ k s) ≡ glue b (String.◌∷◌ k t) = cc in
    let (first, rest) = before_colon k a b s t q (ground arith) (ground arith) tail in (cc, rest)

line_text-no_colon : (line : Option ℕ) → each no_colon (line_text line) ≡ true
line_text-no_colon none = refl
line_text-no_colon (some n) = each-show no_colon n refl

glue_empty : (s : String) → glue s "" ≡ s
glue_empty String.[] = refl
glue_empty (String.◌∷◌ c s) = ap (λ t. String.◌∷◌ c t) (glue_empty s)

-- The file and line as the key prints them, a missing one as no text, and the description in lower
-- case.
abbrev pub spot : (String → String) → Finding → String × String × String
spot lower f = (or_empty f.file, line_text f.line, lower f.description)

-- The path of the finding's file holds no colon.
abbrev pub HasPlainPath : Finding → Type 0
HasPlainPath f = each no_colon (or_empty f.file) ≡ true

-- No two of the findings have one spot.
abbrev pub Apart : (String → String) → List Finding → Type 0
Apart lower [] = Unit
Apart lower (g ∷ gs) = All (λ (h : Finding). spot lower h ≢ spot lower g) gs × Apart lower gs

spot-key :
    (lower : String → String) (f g : Finding)
    → spot lower g ≡ spot lower f
    → key lower g ≡ key lower f
unfolding key
spot-key lower f g e =
    ap
      (λ (s : String × String × String).
        let (file, line, description) = s in concat (file ∷ ":" ∷ line ∷ ":" ∷ description ∷ []))
      e

-- Findings of which none has the key of g.
spots_differ :
    (lower : String → String) (g : Finding) (gs : List Finding)
    → includes (key lower g) (map (key lower) gs) ≡ false
    → All (λ (h : Finding). spot lower h ≢ spot lower g) gs
spots_differ lower g [] h = tt
spots_differ lower g (x ∷ xs) h = elim (Bool-cases (key lower x == key lower g)) [
  | inl e ↦ cc (rw e at h)
  | inr e ↦ (
    λ q. let same = (eq_iff (key lower x) (key lower g)).1 (spot-key lower g x q) in cc,
    spots_differ lower g xs (rw e at h),
  )
]

pub Apart-of_keys :
    (lower : String → String) (l : List Finding) → Distinct (map (key lower) l) → Apart lower l
Apart-of_keys lower [] h = tt
Apart-of_keys lower (g ∷ gs) h = (spots_differ lower g gs h.0, Apart-of_keys lower gs h.1)

key_text :
    (lower : String → String) (f : Finding)
    → key lower f
      ≡ glue (or_empty f.file) (glue ":" (glue (line_text f.line) (glue ":" (lower f.description))))
unfolding key
key_text lower f =
    concat-eq-glue_all (or_empty f.file ∷ ":" ∷ line_text f.line ∷ ":" ∷ lower f.description ∷ [])
    ∙ ap (λ t. glue (or_empty f.file) (glue ":" (glue (line_text f.line) (glue ":" t))))
        (glue_empty (lower f.description))

-- One key is one spot, where no colon stands in a path.
pub spot_of_key :
    (lower : String → String) (f g : Finding)
    → HasPlainPath f
    → HasPlainPath g
    → key lower g ≡ key lower f
    → spot lower g ≡ spot lower f
spot_of_key lower f g hf hg e =
    let text = sym (key_text lower g) ∙ e ∙ key_text lower f in
    let (file, rest) = before_colon _ (or_empty g.file) (or_empty f.file) _ _ refl hg hf text in
    let (line, description) =
      before_colon _ (line_text g.line) (line_text f.line) _ _ refl (line_text-no_colon g.line)
        (line_text-no_colon f.line) rest in
    cc
