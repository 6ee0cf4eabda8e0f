-- ===== src/Prelude/Text/Replacing.antt =====
-- `text.replaceAll(pattern, replacement)` for a text that is not empty, and what is left of the pattern.
use Prim.Native.Char.{Char, code}
use Prim.Native.Nat.{ℕ, zero, suc, ◌-◌}
use Prim.Native.String.{String}
use mathlib.Core.Path.{◌≡◌, refl, ap, ◌∙◌, sym}
use mathlib.Core.Logic.{inl, inr}
use mathlib.Core.Bool.{Bool, true, false, ◌&&◌, ◌||◌, not}
use native.Mathlib.Omega.{arith}
use space_elysiajs_orpc.Prelude.Tests.{eqb, if◌then◌else◌, Bool-cases}
use space_elysiajs_orpc.Prelude.Gluing.{glue}
use space_elysiajs_orpc.Prelude.Text.Digits.{each, each-glue, each-if}

abbrev pub begins_with : String → String → Bool
begins_with String.[] s = true
begins_with (String.◌∷◌ p q) String.[] = false
begins_with (String.◌∷◌ p q) (String.◌∷◌ c s) = eqb (code p) (code c) && begins_with q s

abbrev pub occurs : String → String → Bool
occurs p String.[] = false
occurs p (String.◌∷◌ c s) = begins_with p (String.◌∷◌ c s) || occurs p s

abbrev width : String → ℕ
width String.[] = 0
width (String.◌∷◌ c s) = suc (width s)

-- The characters of a match that are still to be passed over come first.
replace_from : String → String → ℕ → String → String
replace_from p r skip String.[] = ""
replace_from p r (suc skip) (String.◌∷◌ c s) = replace_from p r skip s
replace_from p r zero (String.◌∷◌ c s) =
    let hit = begins_with p (String.◌∷◌ c s) in
    let rest = replace_from p r (if hit then width p - 1 else 0) s in
    if hit then glue r rest else String.◌∷◌ c rest

unfoldable pub replace_all : String → String → String → String
unfolding replace_from
replace_all p r s = replace_from p r 0 s

replace_hit :
    (p r : String) (c : Char) (s : String)
    → begins_with p (String.◌∷◌ c s) ≡ true
    → replace_from p r 0 (String.◌∷◌ c s) ≡ glue r (replace_from p r (width p - 1) s)
unfolding replace_from
replace_hit p r c s h = rw h refl

replace_miss :
    (p r : String) (c : Char) (s : String)
    → begins_with p (String.◌∷◌ c s) ≡ false
    → replace_from p r 0 (String.◌∷◌ c s) ≡ String.◌∷◌ c (replace_from p r 0 s)
unfolding replace_from
replace_miss p r c s h = rw h refl

-- Every character of the result passes a test that the text's and the replacement's pass.
each-replace_from :
    (ok : ℕ → Bool) (p r : String) (skip : ℕ) (s : String)
    → each ok r ≡ true
    → each ok s ≡ true
    → each ok (replace_from p r skip s) ≡ true
unfolding replace_from
each-replace_from ok p r skip String.[] h k = refl
each-replace_from ok p r (suc skip) (String.◌∷◌ c s) h k =
    each-replace_from ok p r skip s h (ground arith)
each-replace_from ok p r zero (String.◌∷◌ c s) h k =
    let hit = begins_with p (String.◌∷◌ c s) in
    let rest = each-replace_from ok p r (if hit then width p - 1 else 0) s h (ground arith) in
    each-if ok hit _ _ (each-glue ok r _ h rest) (ground (arith, rest))

pub each-replace_all :
    (ok : ℕ → Bool) (p r s : String)
    → each ok r ≡ true
    → each ok s ≡ true
    → each ok (replace_all p r s) ≡ true
unfolding replace_all
each-replace_all ok p r s h k = each-replace_from ok p r 0 s h k

nothing_begins :
    (p : String) (d : Char) (r : String) (x : Char) (q : String)
    → begins_with (String.◌∷◌ x q) (replace_from p (String.◌∷◌ d r) 0 "") ≡ true
    → false ≡ true
unfolding replace_from
nothing_begins p d r x q k = k

-- A text that lacks the first character of the replacement begins the result only where it begins
-- the text.
begins_before :
    (p : String) (d : Char) (r q s : String)
    → each (λ c. not (eqb c (code d))) q ≡ true
    → begins_with q (replace_from p (String.◌∷◌ d r) 0 s) ≡ true
    → begins_with q s ≡ true
begins_before p d r String.[] s h k = refl
begins_before p d r (String.◌∷◌ x q) String.[] h k = nothing_begins p d r x q k
begins_before p d r (String.◌∷◌ x q) (String.◌∷◌ c s) h k =
    elim (Bool-cases (begins_with p (String.◌∷◌ c s))) [
      | inl e ↦
          let e2 = ap (begins_with (String.◌∷◌ x q)) (replace_hit p (String.◌∷◌ d r) c s e) in
          let now : (eqb (code x) (code d)
                && begins_with q (glue r (replace_from p (String.◌∷◌ d r) (width p - 1) s)))
              ≡ true =
            sym e2 ∙ k in
          absurd (ground (arith))
      | inr e ↦
          let e2 = ap (begins_with (String.◌∷◌ x q)) (replace_miss p (String.◌∷◌ d r) c s e) in
          let now : (eqb (code x) (code c) && begins_with q (replace_from p (String.◌∷◌ d r) 0 s))
              ≡ true =
            sym e2 ∙ k in
          ground (arith, begins_before p d r q s)
    ]

-- No occurrence of the pattern begins in a text that the rest follows.
abbrev pub Free : String → String → String → Type 0
Free p String.[] t = Unit
Free p (String.◌∷◌ c s) t = (begins_with p (String.◌∷◌ c (glue s t)) ≡ false) × Free p s t

occurs-glue : (p s t : String) → Free p s t → occurs p (glue s t) ≡ occurs p t
occurs-glue p String.[] t h = refl
occurs-glue p (String.◌∷◌ c s) t h = ground (arith, h.0, occurs-glue p s t h.1)

module _ (q : Char) (p : String) (d : Char) (r : String)
    (other : each (λ c. not (eqb c (code d))) p ≡ true)
    (clear : (t : String) → Free (String.◌∷◌ q p) (String.◌∷◌ d r) t) where
  occurs-replace_from :
      (skip : ℕ) (s : String)
      → occurs (String.◌∷◌ q p) (replace_from (String.◌∷◌ q p) (String.◌∷◌ d r) skip s) ≡ false
  unfolding replace_from
  occurs-replace_from skip String.[] = refl
  occurs-replace_from (suc skip) (String.◌∷◌ c s) = occurs-replace_from skip s
  occurs-replace_from zero (String.◌∷◌ c s) =
      elim (Bool-cases (begins_with (String.◌∷◌ q p) (String.◌∷◌ c s))) [
        | inl e ↦
            ap (occurs (String.◌∷◌ q p)) (replace_hit (String.◌∷◌ q p) (String.◌∷◌ d r) c s e)
            ∙ occurs-glue (String.◌∷◌ q p) (String.◌∷◌ d r) _ (clear _)
            ∙ occurs-replace_from (width (String.◌∷◌ q p) - 1) s
        | inr e ↦
            ap (occurs (String.◌∷◌ q p)) (replace_miss (String.◌∷◌ q p) (String.◌∷◌ d r) c s e)
            ∙ ground (arith, begins_before (String.◌∷◌ q p) d r p s other, occurs-replace_from 0 s)
      ]

  -- Once every occurrence is replaced, the pattern is gone.
  pub occurs-replace_all :
      (s : String)
      → occurs (String.◌∷◌ q p) (replace_all (String.◌∷◌ q p) (String.◌∷◌ d r) s) ≡ false
  unfolding replace_all
  occurs-replace_all s = occurs-replace_from 0 s

-- Replacing another pattern brings nothing back.
module _ (p : String) (d : Char) (r w : String) (other : each (λ c. not (eqb c (code d))) w ≡ true)
    (clear : (t : String) → Free w (String.◌∷◌ d r) t) where
  kept_from :
      (skip : ℕ) (s : String)
      → occurs w s ≡ false
      → occurs w (replace_from p (String.◌∷◌ d r) skip s) ≡ false
  unfolding replace_from
  kept_from skip String.[] h = refl
  kept_from (suc skip) (String.◌∷◌ c s) h = kept_from skip s (ground arith)
  kept_from zero (String.◌∷◌ c s) h = elim (Bool-cases (begins_with p (String.◌∷◌ c s))) [
    | inl e ↦
        ap (occurs w) (replace_hit p (String.◌∷◌ d r) c s e)
        ∙ occurs-glue w (String.◌∷◌ d r) _ (clear _)
        ∙ kept_from (width p - 1) s (ground arith)
    | inr e ↦
        let back = begins_before p d r w (String.◌∷◌ c s) other in
        let q = replace_miss p (String.◌∷◌ d r) c s e in
        ap (occurs w) q ∙ ground (arith, rw q at back, kept_from 0 s)
  ]

  pub occurs-kept :
      (s : String) → occurs w s ≡ false → occurs w (replace_all p (String.◌∷◌ d r) s) ≡ false
  unfolding replace_all
  occurs-kept s h = kept_from 0 s h
