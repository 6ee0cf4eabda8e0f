-- ===== src/Prelude/Text.antt =====
-- Template literals, `join` and the decimal form of a number.
pub mod Digits
pub mod Replacing
pub mod Opening
use Prim.Native.Char.{code}
use Prim.Native.Nat.{ℕ, zero, suc, ◌+◌, ◌-◌, ◌*◌, ◌/◌, ◌%◌}
use Prim.Native.String
use Prim.Native.String.{String}
use mathlib.Core.List.{List, [], ◌∷◌}
use space_elysiajs_orpc.Prelude.Tests.{eqb, ltb, if◌then◌else◌}

-- The pieces of a template literal, one after the other.
abbrev pub concat : List String → String
concat [] = ""
concat (s ∷ l) = String.◌++◌ s (concat l)

abbrev pub join : String → List String → String
join sep [] = ""
join sep (s ∷ []) = s
join sep (s ∷ t ∷ l) = String.◌++◌ s (String.◌++◌ sep (join sep (t ∷ l)))

abbrev digit : ℕ → String
digit n =
    if eqb n 0
    then "0"
    else if eqb n 1
    then "1"
    else if eqb n 2
    then "2"
    else if eqb n 3
    then "3"
    else if eqb n 4
    then "4"
    else if eqb n 5
    then "5"
    else if eqb n 6
    then "6"
    else if eqb n 7
    then "7"
    else if eqb n 8
    then "8"
    else "9"

show_digits : ℕ → ℕ → String → String
show_digits zero n acc = acc
show_digits (suc fuel) n acc =
    let more = show_digits fuel (n / 10) (String.◌++◌ (digit (n % 10)) acc) in
    if ltb n 10 then String.◌++◌ (digit n) acc else more

-- A number of n digits takes n rounds, and n is below the number and 1 together.
unfoldable pub show : ℕ → String
unfolding show_digits
show n = show_digits (suc n) n ""

digits_value : ℕ → String → ℕ
digits_value acc String.[] = acc
digits_value acc (String.◌∷◌ c s) = digits_value (acc * 10 + (code c - b'0')) s

-- `Number(text)` for a text of digits, below 2^53.
unfoldable pub number_of : String → ℕ
unfolding digits_value
number_of s = digits_value 0 s
