-- ===== src/Prelude/Gluing.antt =====
-- Texts put together by clauses, which compute on a text whose first characters are known.
use Prim.Native.Char.{code}
use Prim.Native.Nat.{ℕ}
use Prim.Native.String
use Prim.Native.String.{String}
use Prim.Native.String.append
use mathlib.Core.Path.{◌≡◌, refl, ap, ◌∙◌}
use mathlib.Core.Option.{Option, some}
use mathlib.Core.List.{List, [], ◌∷◌}
use space_elysiajs_orpc.Prelude.Text.{concat}

abbrev pub glue : String → String → String
glue String.[] t = t
glue (String.◌∷◌ c s) t = String.◌∷◌ c (glue s t)

abbrev pub glue_all : List String → String
glue_all [] = ""
glue_all (s ∷ l) = glue s (glue_all l)

pub append-eq-glue : (s t : String) → String.◌++◌ s t ≡ glue s t
append-eq-glue String.[] t = append.nil t
append-eq-glue (String.◌∷◌ c s) t =
    append.cons c s t ∙ ap (λ r. String.◌∷◌ c r) (append-eq-glue s t)

pub concat-eq-glue_all : (l : List String) → concat l ≡ glue_all l
concat-eq-glue_all [] = refl
concat-eq-glue_all (s ∷ l) = append-eq-glue s (concat l) ∙ ap (glue s) (concat-eq-glue_all l)

pub glue_assoc : (s t u : String) → glue (glue s t) u ≡ glue s (glue t u)
glue_assoc String.[] t u = refl
glue_assoc (String.◌∷◌ c s) t u = ap (λ r. String.◌∷◌ c r) (glue_assoc s t u)

-- The character before a place, once a text has been passed.
abbrev pub last_code : Option ℕ → String → Option ℕ
last_code before String.[] = before
last_code before (String.◌∷◌ c s) = last_code (some (code c)) s
