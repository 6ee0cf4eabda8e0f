-- ===== src/Runner/Redact.antt =====
-- tooling/local-runner/src/redact.ts: what is taken out of a text that leaves the runner. Under the
-- flag `i`, letters are those of ASCII.
use space_elysiajs_orpc.Prelude.{ℕ, zero, suc, String, none, some, List, [], ◌∷◌, concat, not, ◌||◌}
use space_elysiajs_orpc.Regexp.{
  Re, Place, empty, word_boundary, one_of, seq, star, reluctant, group, replace, group_of,
}
use space_elysiajs_orpc.Regexp.Classes.{
  in_set, is_one_of, literal, literal_i, plus, all_of, any_of, word, space, anything, is_space,
}

abbrev letters : String
letters = "ABCDEFGHIJKLMNOPQRSTUVWXYZ"

abbrev small_letters : String
small_letters = "abcdefghijklmnopqrstuvwxyz"

abbrev digits : String
digits = "0123456789"

-- `[A-Za-z0-9…]`
abbrev alphanumeric : String → Re
alphanumeric others = in_set (concat (letters ∷ small_letters ∷ digits ∷ others ∷ []))

abbrev times : ℕ → Re → Re
times zero r = empty
times (suc n) r = seq r (times n r)

-- `r{n,}`
abbrev at_least : ℕ → Re → Re
at_least n r = seq (times n r) (star r)

abbrev group_text : ℕ → Place → String
group_text n p = elim (group_of n (some p)) [ none ↦ "" | some s ↦ s ]

record Pattern : Type 0 where
  label : Place → String
  pattern' : Re

abbrev marked : String → Re → Pattern
marked label r = record { label = λ _. label; pattern' = r }

abbrev private_key : String → Re
private_key word_ = all_of (
    literal "-----"
    ∷ literal word_
    ∷ literal " "
    ∷ star (in_set (concat (letters ∷ " " ∷ [])))
    ∷ literal "PRIVATE KEY-----"
    ∷ [])

-- `PATTERNS`
patterns : List Pattern
patterns =
    marked "[redacted:github-token]" (
      all_of (
        word_boundary
        ∷ literal "gh"
        ∷ in_set "pousr"
        ∷ literal "_"
        ∷ at_least 20 (alphanumeric "")
        ∷ []))
    ∷ marked "[redacted:github-token]"
        (all_of (word_boundary ∷ literal "github_pat_" ∷ at_least 20 (alphanumeric "_") ∷ []))
    ∷ marked "[redacted:anthropic-key]"
        (all_of (word_boundary ∷ literal "sk-ant-" ∷ at_least 10 (alphanumeric "_-") ∷ []))
    ∷ marked "[redacted:openai-key]"
        (all_of (word_boundary ∷ literal "sk-" ∷ at_least 32 (alphanumeric "") ∷ []))
    ∷ marked "[redacted:aws-key]" (
        all_of (
          word_boundary
          ∷ literal "AKIA"
          ∷ times 16 (in_set (concat (digits ∷ letters ∷ [])))
          ∷ word_boundary
          ∷ []))
    ∷ marked "[redacted:private-key]"
        (all_of (private_key "BEGIN" ∷ reluctant anything ∷ private_key "END" ∷ []))
    ∷ marked "[redacted:bearer]" (
        all_of (
          word_boundary
          ∷ literal "Bearer"
          ∷ plus space
          ∷ at_least 20 (alphanumeric "._~+/-")
          ∷ star (literal "=")
          ∷ []))
    ∷ record {
      label = λ p. concat (group_text 1 p ∷ "=[redacted]" ∷ []);
      pattern' = all_of (
          word_boundary
          ∷ group 1 (
              all_of (
                star (alphanumeric "_")
                ∷ any_of (literal_i "PASSWORD") (
                    literal_i "SECRET"
                    ∷ literal_i "TOKEN"
                    ∷ literal_i "API_KEY"
                    ∷ literal_i "ACCESS_KEY"
                    ∷ literal_i "SIGNING_KEY"
                    ∷ literal_i "PRIVATE_KEY"
                    ∷ [])
                ∷ []))
          ∷ literal "="
          ∷ plus (one_of (λ c. not (is_space c)))
          ∷ []);
    }
    ∷ record {
      label = λ p. concat (group_text 1 p ∷ "//" ∷ group_text 2 p ∷ ":[redacted]@" ∷ []);
      pattern' = all_of (
          word_boundary
          ∷ group 1 (seq (plus word) (literal ":"))
          ∷ literal "//"
          ∷ group 2 (plus (one_of (λ c. not (is_space c || is_one_of ":/@" c))))
          ∷ literal ":"
          ∷ plus (one_of (λ c. not (is_space c || is_one_of "@" c)))
          ∷ literal "@"
          ∷ []);
    }
    ∷ []

redact_with : List Pattern → String → String
redact_with [] output = output
redact_with (p ∷ rest) output = redact_with rest (replace p.pattern' p.label output)

unfoldable pub redact : String → String
unfolding redact_with patterns
redact text = redact_with patterns text
