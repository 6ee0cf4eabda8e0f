-- ===== src/Glob.antt =====
-- tooling/loop/src/glob.ts: the path matcher of the loop policy. Texts are sequences of code points.
pub mod Segments
pub mod Paths
use Prim.Native.Char.{Char, code}
use Prim.Native.String
use space_elysiajs_orpc.Prelude.{
  ℕ, String, Bool, true, false, List, [], ◌∷◌, ◌++◌, eqb, ◌&&◌, ◌||◌, if◌then◌else◌, filter, any,
  is_empty, not, ◌==◌,
}

-- The atoms of the regular expression that `segmentToRegExp` writes: `[^/]*`, `[^/]` and an escaped
-- character.
pub data Atom : Type 0 where
  any_run any_one : Atom
  literal : ℕ → Atom

to_atom : ℕ → Atom
to_atom c = if eqb c b'*' then any_run else if eqb c b'?' then any_one else literal c

pub segment_to_regexp : String → List Atom
unfolding to_atom
segment_to_regexp String.[] = []
segment_to_regexp (String.◌∷◌ c s) = to_atom (code c) ∷ segment_to_regexp s

-- `[^/]*` before the rest of the expression: it gives up one more character at a time.
run_then : (String → Bool) → String → Bool
run_then k String.[] = k String.[]
run_then k (String.◌∷◌ c s) = k (String.◌∷◌ c s) || (not (eqb (code c) b'/') && run_then k s)

one_then : (ℕ → Bool) → (String → Bool) → String → Bool
one_then ok k String.[] = false
one_then ok k (String.◌∷◌ c s) = ok (code c) && k s

-- `^…$` against a whole text.
pub test : List Atom → String → Bool
test [] String.[] = true
test [] (String.◌∷◌ c s) = false
test (any_run ∷ atoms) s = run_then (test atoms) s
test (any_one ∷ atoms) s = one_then (λ c. not (eqb c b'/')) (test atoms) s
test (literal c ∷ atoms) s = one_then (eqb c) (test atoms) s

-- The loop over `consumed`: some suffix of the path matches, the path itself and the empty one
-- included.
some_suffix : (List String → Bool) → List String → Bool
some_suffix k [] = k []
some_suffix k (segment ∷ path) = k (segment ∷ path) || some_suffix k path

-- One segment of the pattern other than `**`.
head_then : String → (List String → Bool) → List String → Bool
head_then head k [] = false
head_then head k (segment ∷ path) = test (segment_to_regexp head) segment && k path

pub match_segments : List String → List String → Bool
unfolding some_suffix head_then test segment_to_regexp run_then one_then
match_segments [] path = is_empty path
match_segments (head ∷ rest) path =
    if head == "**"
    then some_suffix (match_segments rest) path
    else head_then head (match_segments rest) path

-- `text.replace(/^\.\//, '')`
strip_dot : String → String
strip_dot (String.◌∷◌ c (String.◌∷◌ d s)) =
    if eqb (code c) b'.' && eqb (code d) b'/' then s else String.◌∷◌ c (String.◌∷◌ d s)
strip_dot s = s

-- `text.split('/')`
split_from : String → String → List String
split_from current String.[] = current ∷ []
split_from current (String.◌∷◌ c s) =
    let closed = current ∷ split_from "" s in
    let longer = split_from (String.◌++◌ current (String.◌∷◌ c String.[])) s in
    if eqb (code c) b'/' then closed else longer

unfoldable pub normalise : String → List String
unfolding strip_dot split_from
normalise text = filter (λ s. not (s == "")) (split_from "" (strip_dot text))

unfoldable pub matches_glob : String → String → Bool
unfolding match_segments
matches_glob pattern' path = match_segments (normalise pattern') (normalise path)

unfoldable pub matches_any_glob : List String → String → Bool
matches_any_glob patterns path = any (λ pattern'. matches_glob pattern' path) patterns
