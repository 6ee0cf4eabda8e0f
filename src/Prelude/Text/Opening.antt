-- ===== src/Prelude/Text/Opening.antt =====
-- Texts in which no HTML comment is opened, and how they are joined.
use Prim.Native.Char.{Char, code}
use Prim.Native.Nat.{ℕ}
use Prim.Native.String
use Prim.Native.String.{String}
use Prim.Native.String.append
use mathlib.Core.Path.{◌≡◌, refl, ap, ◌∙◌, sym}
use mathlib.Core.Bool.{Bool, true, false, ◌||◌, not}
use mathlib.Core.List.{List, [], ◌∷◌, map}
use native.Mathlib.Omega.{arith}
use space_elysiajs_orpc.Prelude.Tests.{eqb}
use space_elysiajs_orpc.Prelude.Lists.{All}
use space_elysiajs_orpc.Prelude.Gluing.{glue, append-eq-glue}
use space_elysiajs_orpc.Prelude.Text.{concat, join}
use space_elysiajs_orpc.Prelude.Text.Digits.{each}
use space_elysiajs_orpc.Prelude.Text.Replacing.{occurs, begins_with}

abbrev pub Shut : String → Type 0
Shut s = occurs "<!--" s ≡ false

-- A character at which no comment's opening begins, and one that stands in none after its first.
abbrev pub quiet : ℕ → Bool
quiet c = not (eqb b'<' c)

abbrev pub breaking : ℕ → Bool
breaking c = not (eqb b'!' c || eqb b'-' c)

quiet_glue : (s t : String) → each quiet s ≡ true → Shut t → Shut (glue s t)
quiet_glue String.[] t h k = k
quiet_glue (String.◌∷◌ c s) t h k = ground (arith, quiet_glue s t)

begins_glue :
    (a : Char) (s : String) (c : Char) (t : String)
    → breaking (code c) ≡ true
    → begins_with "<!--" (String.◌∷◌ a (glue s (String.◌∷◌ c t)))
      ≡ begins_with "<!--" (String.◌∷◌ a s)
begins_glue a String.[] c t h = ground arith
begins_glue a (String.◌∷◌ x String.[]) c t h = ground arith
begins_glue a (String.◌∷◌ x (String.◌∷◌ y String.[])) c t h = ground arith
begins_glue a (String.◌∷◌ x (String.◌∷◌ y (String.◌∷◌ z s))) c t h = refl

break_glue :
    (s : String) (c : Char) (t : String)
    → breaking (code c) ≡ true
    → Shut s
    → Shut (String.◌∷◌ c t)
    → Shut (glue s (String.◌∷◌ c t))
break_glue String.[] c t h k l = l
break_glue (String.◌∷◌ a s) c t h k l = ground (arith, begins_glue a s c t h, break_glue s c t h)

pub quiet-Shut : (s : String) → each quiet s ≡ true → Shut s
quiet-Shut String.[] h = refl
quiet-Shut (String.◌∷◌ c s) h = ground (arith, quiet-Shut s)

-- A fixed piece, or any piece that such a one follows.
pub Shut-fixed :
    (k : String) (l : List String) → each quiet k ≡ true → Shut (concat l) → Shut (concat (k ∷ l))
Shut-fixed k l h m = ap (occurs "<!--") (append-eq-glue k (concat l)) ∙ quiet_glue k (concat l) h m

Shut-append :
    (x : String) (c : Char) (k t : String)
    → breaking (code c) ≡ true
    → Shut x
    → Shut (String.◌++◌ (String.◌∷◌ c k) t)
    → Shut (String.◌++◌ x (String.◌++◌ (String.◌∷◌ c k) t))
Shut-append x c k t h m n =
    let e = append.cons c k t in
    ap (λ r. occurs "<!--" (String.◌++◌ x r)) e
    ∙ ap (occurs "<!--") (append-eq-glue x (String.◌∷◌ c (String.◌++◌ k t)))
    ∙ break_glue x c (String.◌++◌ k t) h m (sym (ap (occurs "<!--") e) ∙ n)

glue_nil : (s : String) → glue s "" ≡ s
glue_nil String.[] = refl
glue_nil (String.◌∷◌ c s) = ap (λ r. String.◌∷◌ c r) (glue_nil s)

abbrev pub starts_breaking : String → Bool
starts_breaking String.[] = false
starts_breaking (String.◌∷◌ c s) = breaking (code c)

-- A piece, and the fixed one that follows it.
pub Shut-cell :
    (x k : String) (l : List String)
    → starts_breaking k ≡ true
    → each quiet k ≡ true
    → Shut x
    → Shut (concat l)
    → Shut (concat (x ∷ k ∷ l))
Shut-cell x String.[] l h q m n = cc
Shut-cell x (String.◌∷◌ c k) l h q m n =
    Shut-append x c k (concat l) h m (Shut-fixed (String.◌∷◌ c k) l q n)

pub Shut-last : (x : String) → Shut x → Shut (concat (x ∷ []))
Shut-last x h = ap (occurs "<!--") (append-eq-glue x "" ∙ glue_nil x) ∙ h

pub Shut-join :
    (sep : String) (l : List String)
    → starts_breaking sep ≡ true
    → each quiet sep ≡ true
    → All Shut l
    → Shut (join sep l)
Shut-join sep [] h k m = refl
Shut-join sep (s ∷ []) h k m = m.0
Shut-join String.[] (s ∷ t ∷ l) h k m = cc
Shut-join (String.◌∷◌ c sep) (s ∷ t ∷ l) h k m =
    let rest = join (String.◌∷◌ c sep) (t ∷ l) in
    Shut-append s c sep rest h m.0 (
      ap (occurs "<!--") (append-eq-glue (String.◌∷◌ c sep) rest)
      ∙ quiet_glue (String.◌∷◌ c sep) rest k (Shut-join (String.◌∷◌ c sep) (t ∷ l) h k m.1))

pub All-map_Shut {ℓ} :
    {A : Type ℓ} (print : A → String) (l : List A)
    → All (λ a. Shut (print a)) l
    → All Shut (map print l)
All-map_Shut print [] h = tt
All-map_Shut print (a ∷ l) h = (h.0, All-map_Shut print l h.1)
