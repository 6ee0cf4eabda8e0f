-- ===== src/Prelude/Text/Digits.antt =====
-- Tests on every character of a text, and what the decimal form of a number is made of.
use Prim.Native.Char.{code}
use Prim.Native.Nat.{ℕ, zero, suc, ◌/◌, ◌%◌}
use Prim.Native.String
use Prim.Native.String.{String}
use mathlib.Core.Path.{◌≡◌, refl, ap, ◌∙◌}
use mathlib.Core.Bool.{Bool, true, false, ◌&&◌}
use native.Mathlib.Omega.{arith}
use space_elysiajs_orpc.Prelude.Tests.{eqb, ltb, if◌then◌else◌}
use space_elysiajs_orpc.Prelude.Gluing.{glue, append-eq-glue}
use space_elysiajs_orpc.Prelude.Text.{show, show_digits, digit}

abbrev pub each : (ℕ → Bool) → String → Bool
each ok String.[] = true
each ok (String.◌∷◌ c s) = ok (code c) && each ok s

module _ (ok : ℕ → Bool) where
  pub each-glue : (s t : String) → each ok s ≡ true → each ok t ≡ true → each ok (glue s t) ≡ true
  each-glue String.[] t h k = k
  each-glue (String.◌∷◌ c s) t h k = ground (arith, each-glue s t)

  pub each-append :
      (s t : String) → each ok s ≡ true → each ok t ≡ true → each ok (String.◌++◌ s t) ≡ true
  each-append s t h k = ap (each ok) (append-eq-glue s t) ∙ each-glue s t h k

  pub each-if :
      (b : Bool) (s t : String)
      → each ok s ≡ true
      → each ok t ≡ true
      → each ok (if b then s else t) ≡ true
  each-if true s t h k = h
  each-if false s t h k = k

  -- Where the second text is met only if the test fails.
  pub each-else :
      (b : Bool) (s t : String)
      → each ok s ≡ true
      → (b ≡ false → each ok t ≡ true)
      → each ok (if b then s else t) ≡ true
  each-else true s t h k = h
  each-else false s t h k = k refl

  module _ (digits : (c : ℕ) → each ok (digit c) ≡ true) where
    each-show_digits :
        (fuel n : ℕ) (acc : String) → each ok acc ≡ true → each ok (show_digits fuel n acc) ≡ true
    unfolding show_digits
    each-show_digits zero n acc h = h
    each-show_digits (suc fuel) n acc h =
        each-if (ltb n 10) _ _ (each-append (digit n) acc (digits n) h)
          (each-show_digits fuel (n / 10) _ (each-append (digit (n % 10)) acc (digits (n % 10)) h))

  -- The decimal form of a number is made of the ten digits.
  pub each-show : (n : ℕ) → each ok "0123456789" ≡ true → each ok (show n) ≡ true
  unfolding show
  each-show n h =
      each-show_digits
        (λ c. each-if (eqb c 0) "0" _ (ground arith) (
          each-if (eqb c 1) "1" _ (ground arith) (
            each-if (eqb c 2) "2" _ (ground arith) (
              each-if (eqb c 3) "3" _ (ground arith) (
                each-if (eqb c 4) "4" _ (ground arith) (
                  each-if (eqb c 5) "5" _ (ground arith) (
                    each-if (eqb c 6) "6" _ (ground arith) (
                      each-if (eqb c 7) "7" _ (ground arith)
                        (each-if (eqb c 8) "8" _ (ground arith) (ground arith))))))))))
        (suc n) n "" refl
