-- ===== src/Regexp/Classes.antt =====
-- The character classes and the shorthands in which the patterns are written.
use Prim.Native.Char.{code}
use space_elysiajs_orpc.Prelude.{
  ℕ, zero, suc, ◌+◌, String, Bool, true, false, List, [], ◌∷◌, eqb, leb, ◌&&◌, ◌||◌, not,
  if◌then◌else◌,
}
use space_elysiajs_orpc.Regexp.{Re, empty, one_of, seq, alt, star}

abbrev between : ℕ → ℕ → ℕ → Bool
between lo hi c = leb lo c && leb c hi

-- `\w`, `\d`, `\s`, `.`
abbrev pub word : Re
word =
    one_of
      (λ c. between b'a' b'z' c || (between b'A' b'Z' c || (between b'0' b'9' c || eqb c b'_')))

abbrev pub digit : Re
digit = one_of (between b'0' b'9')

abbrev pub is_space : ℕ → Bool
is_space c =
    between 9 13 c
    || (eqb c 32
        || (eqb c 0xa0
            || (eqb c 0x1680
                || (between 0x2000 0x200a c
                    || (eqb c 0x2028
                        || (eqb c 0x2029
                            || (eqb c 0x202f
                                || (eqb c 0x205f || (eqb c 0x3000 || eqb c 0xfeff)))))))))

abbrev pub space : Re
space = one_of is_space

abbrev pub dot : Re
dot = one_of (λ c. not (eqb c 10 || (eqb c 13 || (eqb c 0x2028 || eqb c 0x2029))))

-- `[\s\S]`
abbrev pub anything : Re
anything = one_of (λ c. true)

abbrev pub is_one_of : String → ℕ → Bool
is_one_of String.[] c = false
is_one_of (String.◌∷◌ d s) c = eqb (code d) c || is_one_of s c

-- `[…]` and `[^…]` over the characters of a text.
abbrev pub in_set : String → Re
in_set s = one_of (is_one_of s)

abbrev pub not_in_set : String → Re
not_in_set s = one_of (λ c. not (is_one_of s c))

-- A letter of the pattern under the flag `i`.
abbrev lower_ascii : ℕ → ℕ
lower_ascii c = if between b'A' b'Z' c then c + 32 else c

abbrev pub literal : String → Re
literal String.[] = empty
literal (String.◌∷◌ c s) = seq (one_of (eqb (code c))) (literal s)

abbrev pub literal_i : String → Re
literal_i String.[] = empty
literal_i (String.◌∷◌ c s) =
    seq (one_of (λ d. eqb (lower_ascii (code c)) (lower_ascii d))) (literal_i s)

-- `r+`, `r?`, a sequence and a choice of several.
abbrev pub plus : Re → Re
plus r = seq r (star r)

abbrev pub maybe : Re → Re
maybe r = alt r empty

abbrev pub all_of : List Re → Re
all_of [] = empty
all_of (r ∷ l) = seq r (all_of l)

-- `r{n}` and `r{n,}`
abbrev pub times : ℕ → Re → Re
times zero r = empty
times (suc n) r = seq r (times n r)

abbrev pub at_least : ℕ → Re → Re
at_least n r = seq (times n r) (star r)

abbrev pub any_of : Re → List Re → Re
any_of r [] = r
any_of r (s ∷ l) = alt r (any_of s l)
