-- ===== src/Regexp/Repetition.antt =====
-- How a repetition of one character class runs, one character at a time, and what precedes the first
-- match.
use Prim.Native.Char.{Char, code}
use space_elysiajs_orpc.Prelude.{
  ℕ, suc, ◌+◌, ◌-◌, String, Bool, true, false, Option, none, some, List, [], ltb, ◌≡◌, refl, arith,
  ap, ◌∙◌,
}
use space_elysiajs_orpc.Prelude.Gluing.{glue, last_code}
use space_elysiajs_orpc.Regexp.{
  Re, one_of, star, reluctant, Place, Then, run, repeat, step, or_else, size, text_take, exec_from,
  captured,
}
use space_elysiajs_orpc.Regexp.Classes.{anything}

ltb-suc : (n : ℕ) → ltb n (suc n) ≡ true
ltb-suc n = ground arith

abbrev pub at_place : Option ℕ → String → List (ℕ × String) → Place
at_place before rest groups = record { before = before; rest = rest; groups = groups }

pub or_else-none : {o : Option Place} (f : Unit {0} → Option Place) → o ≡ none → or_else o f ≡ f tt
unfolding or_else
or_else-none f h = rw h refl

pub or_else-some :
    {o : Option Place} {r : Place} (f : Unit {0} → Option Place) → o ≡ some r → or_else o f ≡ some r
unfolding or_else
or_else-some f h = rw h refl

module _ (groups : List (ℕ × String)) (k : Then) where
  pub star_take :
      (ok : ℕ → Bool) (before : Option ℕ) (c : Char) (s : String)
      → ok (code c) ≡ true
      → run (star (one_of ok)) (at_place before (String.◌∷◌ c s) groups) k
        ≡ or_else
            (run (star (one_of ok)) (at_place (some (code c)) s groups) k)
            (λ _. k (at_place before (String.◌∷◌ c s) groups))
  unfolding run repeat step
  star_take ok before c s h = rw (h, ltb-suc (size s)) refl

  pub star_stop :
      (ok : ℕ → Bool) (before : Option ℕ) (c : Char) (s : String)
      → ok (code c) ≡ false
      → run (star (one_of ok)) (at_place before (String.◌∷◌ c s) groups) k
        ≡ k (at_place before (String.◌∷◌ c s) groups)
  unfolding run repeat step or_else
  star_stop ok before c s h = rw h refl

  reluctant_step :
      (before : Option ℕ) (c : Char) (s : String)
      → run (reluctant anything) (at_place before (String.◌∷◌ c s) groups) k
        ≡ or_else
            (k (at_place before (String.◌∷◌ c s) groups))
            (λ _. run (reluctant anything) (at_place (some (code c)) s groups) k)
  unfolding run repeat step
  reluctant_step before c s = rw (ltb-suc (size s)) refl

  -- `k` fails at each place of the first text, before the second.
  unfoldable pub Fails : Option ℕ → String → String → Type 0
  Fails before String.[] rest = Unit
  Fails before (String.◌∷◌ c s) rest =
      (k (at_place before (String.◌∷◌ c (glue s rest)) groups) ≡ none)
      × Fails (some (code c)) s rest

  -- The reluctant repetition stops at the first place where the rest of the expression matches.
  pub reluctant_to :
      (before : Option ℕ) (s : String) (c : Char) (rest : String) (r : Place)
      → Fails before s (String.◌∷◌ c rest)
      → k (at_place (last_code before s) (String.◌∷◌ c rest) groups) ≡ some r
      → run (reluctant anything) (at_place before (glue s (String.◌∷◌ c rest)) groups) k ≡ some r
  unfolding Fails
  reluctant_to before String.[] c rest r h e = reluctant_step before c rest ∙ or_else-some _ e
  reluctant_to before (String.◌∷◌ d s) c rest r h e =
      reluctant_step before d (glue s (String.◌∷◌ c rest))
      ∙ or_else-none _ h.0
      ∙ reluctant_to (some (code d)) s c rest r h.1 e

-- No match begins at a place of the first text, before the second.
unfoldable pub NoMatch : Re → Option ℕ → String → String → Type 0
NoMatch r before String.[] rest = Unit
NoMatch r before (String.◌∷◌ c s) rest =
    (run r (at_place before (String.◌∷◌ c (glue s rest)) []) (λ q. some q) ≡ none)
    × NoMatch r (some (code c)) s rest

pub exec_from-glue :
    (r : Re) (before : Option ℕ) (s rest : String)
    → NoMatch r before s rest
    → exec_from r before (glue s rest) ≡ exec_from r (last_code before s) rest
unfolding exec_from NoMatch
exec_from-glue r before String.[] rest h = refl
exec_from-glue r before (String.◌∷◌ c s) rest h =
    or_else-none _ h.0 ∙ exec_from-glue r (some (code c)) s rest h.1

size-glue : (s t : String) → size (glue s t) ≡ size s + size t
size-glue String.[] t = omega arith
size-glue (String.◌∷◌ c s) t = omega (arith, size-glue s t)

take-glue : (s t : String) → text_take (size s) (glue s t) ≡ s
take-glue String.[] String.[] = refl
take-glue String.[] (String.◌∷◌ c t) = refl
take-glue (String.◌∷◌ c s) t = ap (λ r. String.◌∷◌ c r) (take-glue s t)

-- What is captured between two places is the text between them.
pub captured_between :
    (b d : Option ℕ) (g h : List (ℕ × String)) (s t : String)
    → captured (at_place b (glue s t) g) (at_place d t h) ≡ s
unfolding captured
captured_between b d g h s t =
    let e : size (glue s t) - size t ≡ size s = omega (arith, size-glue s t) in rw e (take-glue s t)
