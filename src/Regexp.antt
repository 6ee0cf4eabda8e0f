-- ===== src/Regexp.antt =====
-- The regular expressions that the sources use, matched as ECMAScript matches them: by backtracking,
-- alternatives from left to right, `*` greedy and `*?` reluctant, with captures. A text is a
-- sequence of code points, where JavaScript matches UTF-16 units. No pattern here captures inside a
-- repetition, so captures are never reset.
pub mod Classes
pub mod Repetition
use Prim.Native.Char.{Char, code}
use Prim.Native.String
use space_elysiajs_orpc.Prelude.{
  ℕ, zero, suc, ◌+◌, ◌-◌, String, Bool, true, false, Option, none, some, List, [], ◌∷◌, eqb, leb,
  ltb, ◌&&◌, ◌||◌, not, if◌then◌else◌,
}

pub data Re : Type 0 where
  empty start end word_boundary : Re
  one_of : (ℕ → Bool) → Re
  seq alt : Re → Re → Re
  star reluctant : Re → Re
  group : ℕ → Re → Re
  -- `(?!r)`
  not_ahead : Re → Re

-- A place in the text, with what was captured on the way there.
pub record Place : Type 0 where
  pub before : Option ℕ
  pub rest : String
  pub groups : List (ℕ × String)

abbrev is_word : ℕ → Bool
is_word c =
    (leb b'a' c && leb c b'z')
    || ((leb b'A' c && leb c b'Z') || ((leb b'0' c && leb c b'9') || eqb c b'_'))

abbrev word_at : Option ℕ → Bool
word_at none = false
word_at (some c) = is_word c

abbrev first_code : String → Option ℕ
first_code String.[] = none
first_code (String.◌∷◌ c s) = some (code c)

abbrev pub size : String → ℕ
size String.[] = 0
size (String.◌∷◌ c s) = suc (size s)

-- The first n characters.
abbrev pub text_take : ℕ → String → String
text_take zero s = String.[]
text_take (suc n) String.[] = String.[]
text_take (suc n) (String.◌∷◌ c s) = String.◌∷◌ c (text_take n s)

abbrev pub text_drop : ℕ → String → String
text_drop zero s = s
text_drop (suc n) String.[] = String.[]
text_drop (suc n) (String.◌∷◌ c s) = text_drop n s

abbrev pub Then : Type 0
Then = Place → Option Place

unfoldable pub or_else : Option Place → (Unit {0} → Option Place) → Option Place
or_else none f = f tt
or_else (some p) f = some p

unfoldable pub step : (ℕ → Bool) → Place → Then → Option Place
step ok p k = elim p.rest [
  | String.[] ↦ none
  | String.◌∷◌ c s ↦
      let next = k (record p { before = some (code c); rest = s }) in
      if ok (code c) then next else none
]

-- The repetitions of an expression. One that consumes nothing fails, so as many rounds as there are
-- characters left are enough.
pub repeat : Bool → (Place → Then → Option Place) → ℕ → Place → Then → Option Place
repeat greedy body zero p k = k p
repeat greedy body (suc rounds) p k =
    let again =
      body p
        (λ q. if ltb (size q.rest) (size p.rest) then repeat greedy body rounds q k else none) in
    let stop = k p in if greedy then or_else again (λ _. stop) else or_else stop (λ _. again)

unfoldable pub captured : Place → Place → String
captured p q = text_take (size p.rest - size q.rest) p.rest

pub same_bool : Bool → Bool → Bool
same_bool true b = b
same_bool false b = not b

unfoldable pub run : Re → Place → Then → Option Place
run empty p k = k p
run start p k = elim p.before [ none ↦ k p | some _ ↦ none ]
run end p k = elim p.rest [ String.[] ↦ k p | String.◌∷◌ _ _ ↦ none ]
run word_boundary p k =
    let go = k p in if same_bool (word_at p.before) (word_at (first_code p.rest)) then none else go
run (one_of ok) p k = step ok p k
run (seq r s) p k = run r p (λ q. run s q k)
run (alt r s) p k = or_else (run r p k) (λ _. run s p k)
run (star r) p k = repeat true (run r) (size p.rest) p k
run (reluctant r) p k = repeat false (run r) (size p.rest) p k
run (not_ahead r) p k = let go = k p in elim (run r p (λ q. some q)) [ none ↦ go | some _ ↦ none ]
run (group n r) p k = run r p (λ q. k (record q { groups = (n, captured p q) ∷ q.groups }))

-- The first match, at the leftmost place where there is one.
unfoldable pub exec_from : Re → Option ℕ → String → Option Place
exec_from r before String.[] =
    run r (record { before = before; rest = String.[]; groups = [] }) (λ q. some q)
exec_from r before (String.◌∷◌ c s) =
    let later = exec_from r (some (code c)) s in
    or_else (run r (record { before = before; rest = String.◌∷◌ c s; groups = [] }) (λ q. some q))
      (λ _. later)

unfoldable pub exec : Re → String → Option Place
unfolding exec_from run repeat step or_else captured same_bool
exec r text = exec_from r none text

unfoldable pub test : Re → String → Bool
unfolding exec
test r text = elim (exec r text) [ none ↦ false | some _ ↦ true ]

-- The last group captured, which is the whole match under `group 0`.
abbrev whole_of : List (ℕ × String) → String
whole_of [] = String.[]
whole_of ((n, s) ∷ l) = s

-- `text.matchAll(r)` for an expression that never matches the empty text: each match is looked for
-- where the one before ended, so as many rounds as there are characters are enough.
match_all_from : Re → ℕ → Option ℕ → String → List Place
match_all_from r zero before text = []
match_all_from r (suc rounds) before text = elim (exec_from r before text) [
  | none ↦ []
  | some q ↦ q ∷ match_all_from r rounds q.before q.rest
]

unfoldable pub match_all : Re → String → List Place
unfolding match_all_from exec
match_all r text = match_all_from r (size text) none text

-- `text.replace(r, f)` for a global expression that never matches the empty text. Group 0 is the
-- whole match, so what lies before it is what is left over.
replace_from : Re → (Place → String) → ℕ → Option ℕ → String → String
replace_from r f zero before text = text
replace_from r f (suc rounds) before text = elim (exec_from (group 0 r) before text) [
  | none ↦ text
  | some q ↦
      String.◌++◌ (text_take (size text - size q.rest - size (whole_of q.groups)) text)
        (String.◌++◌ (f q) (replace_from r f rounds q.before q.rest))
]

unfoldable pub replace : Re → (Place → String) → String → String
unfolding replace_from exec
replace r f text = replace_from r f (size text) none text

-- `match[n]`, `none` for undefined.
find_group : ℕ → List (ℕ × String) → Option String
find_group n [] = none
find_group n ((i, s) ∷ l) = if eqb i n then some s else find_group n l

unfoldable pub group_of : ℕ → Option Place → Option String
unfolding find_group
group_of n none = none
group_of n (some p) = find_group n p.groups
