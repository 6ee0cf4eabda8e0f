-- ===== src/Glob/Segments.antt =====
-- One segment: the expression decides what a run of wildcards and characters stands for.
use Prim.Native.Char.{Char, code}
use space_elysiajs_orpc.Prelude.{
  ℕ, String, Bool, true, List, [], ◌∷◌, ◌≡◌, refl, ◌≢◌, ◌↔◌, inl, inr, arith, Bool-cases,
}
use space_elysiajs_orpc.Glob.{Atom, any_run, any_one, literal, run_then, one_then, test}

-- The texts that an expression stands for.
pub data Reads : List Atom → String → Type 0 where
  done : Reads [] String.[]
  stop : {atoms : List Atom} {s : String} → Reads atoms s → Reads (any_run ∷ atoms) s
  more :
      {atoms : List Atom} {c : Char} {s : String}
      → code c ≢ b'/'
      → Reads (any_run ∷ atoms) s
      → Reads (any_run ∷ atoms) (String.◌∷◌ c s)
  one :
      {atoms : List Atom} {c : Char} {s : String}
      → code c ≢ b'/'
      → Reads atoms s
      → Reads (any_one ∷ atoms) (String.◌∷◌ c s)
  same :
      {atoms : List Atom} {n : ℕ} {c : Char} {s : String}
      → n ≡ code c
      → Reads atoms s
      → Reads (literal n ∷ atoms) (String.◌∷◌ c s)

run_sound :
    (atoms : List Atom) (s : String)
    → ((t : String) → test atoms t ≡ true → Reads atoms t)
    → run_then (test atoms) s ≡ true
    → Reads (any_run ∷ atoms) s
unfolding run_then
run_sound atoms String.[] k h = stop (k String.[] h)
run_sound atoms (String.◌∷◌ c s) k h = elim (Bool-cases (test atoms (String.◌∷◌ c s))) [
  | inl e ↦ stop (k (String.◌∷◌ c s) e)
  | inr e ↦ more (ground arith) (run_sound atoms s k (ground arith))
]

test_sound : (atoms : List Atom) (s : String) → test atoms s ≡ true → Reads atoms s
unfolding test one_then
test_sound [] String.[] h = done
test_sound [] (String.◌∷◌ c s) h = cc
test_sound (any_run ∷ atoms) s h = run_sound atoms s (λ t k. test_sound atoms t k) h
test_sound (any_one ∷ atoms) String.[] h = cc
test_sound (any_one ∷ atoms) (String.◌∷◌ c s) h =
    one (ground arith) (test_sound atoms s (ground arith))
test_sound (literal n ∷ atoms) String.[] h = cc
test_sound (literal n ∷ atoms) (String.◌∷◌ c s) h =
    same (ground arith) (test_sound atoms s (ground arith))

run_here : (k : String → Bool) (s : String) → k s ≡ true → run_then k s ≡ true
unfolding run_then
run_here k String.[] h = h
run_here k (String.◌∷◌ c s) h = rw h refl

run_more :
    (k : String → Bool) (c : Char) (s : String)
    → code c ≢ b'/'
    → run_then k s ≡ true
    → run_then k (String.◌∷◌ c s) ≡ true
unfolding run_then
run_more k c s n h = ground arith

test_complete : {atoms : List Atom} {s : String} → Reads atoms s → test atoms s ≡ true
unfolding test one_then
test_complete done = refl
test_complete (stop {atoms = l} {s = t} r) = run_here (test l) t (test_complete r)
test_complete (more {atoms = l} {c = d} {s = t} n r) = run_more (test l) d t n (test_complete r)
test_complete (one n r) = ground (arith, test_complete r)
test_complete (same e r) = ground (arith, test_complete r)

pub test_iff : (atoms : List Atom) (s : String) → (test atoms s ≡ true) ↔ Reads atoms s
test_iff atoms s = (test_sound atoms s, test_complete)
