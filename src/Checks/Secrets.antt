-- ===== src/Checks/Secrets.antt =====
-- tooling/loop/src/checks/secrets.ts: credential shapes among the lines that a pull request adds.
use space_elysiajs_orpc.Prelude.{String, Option, none, some, List, [], ◌∷◌, if◌then◌else◌, concat}
use space_elysiajs_orpc.Policy.{Severity}
use space_elysiajs_orpc.Diff.{DiffFile, PullRequestDiff}
use space_elysiajs_orpc.Review.{Finding}
use space_elysiajs_orpc.Regexp.{Re, word_boundary, alt, star, test}
use space_elysiajs_orpc.Regexp.Classes.{
  word, space, in_set, literal, literal_i, maybe, all_of, any_of, times, at_least,
}
use space_elysiajs_orpc.Checks.Paths.{for_each}

abbrev upper_digits : Re
upper_digits = in_set "0123456789ABCDEFGHIJKLMNOPQRSTUVWXYZ"

abbrev alphanumeric : Re
alphanumeric = alt upper_digits (in_set "abcdefghijklmnopqrstuvwxyz")

-- `[_-]?`
abbrev joined_i : String → String → Re
joined_i first second = all_of (literal_i first ∷ maybe (in_set "_-") ∷ literal_i second ∷ [])

-- `/(?:secret|…|private[_-]?key)\s*[:=]\s*["'][A-Za-z0-9+/=_-]{32,}["']/i`
abbrev quoted_literal : Re
quoted_literal = all_of (
    any_of (literal_i "secret") (
      literal_i "token"
      ∷ literal_i "password"
      ∷ literal_i "passwd"
      ∷ joined_i "api" "key"
      ∷ joined_i "access" "key"
      ∷ joined_i "private" "key"
      ∷ [])
    ∷ star space
    ∷ in_set ":="
    ∷ star space
    ∷ in_set "\"'"
    ∷ at_least 32 (alt alphanumeric (in_set "+/=_-"))
    ∷ in_set "\"'"
    ∷ [])

abbrev private_key_block : Re
private_key_block = all_of (
    literal "-----BEGIN "
    ∷ maybe (
        any_of (literal "RSA ")
          (literal "EC " ∷ literal "DSA " ∷ literal "OPENSSH " ∷ literal "PGP " ∷ []))
    ∷ literal "PRIVATE KEY-----"
    ∷ [])

-- `\b…\b` around a shape, and `\b` before one.
abbrev bounded : Re → Re → Re
bounded prefix body = all_of (word_boundary ∷ prefix ∷ body ∷ word_boundary ∷ [])

abbrev opened : Re → Re → Re
opened prefix body = all_of (word_boundary ∷ prefix ∷ body ∷ [])

-- `SECRET_PATTERNS`
abbrev pub secret_patterns : List (String × Re)
secret_patterns =
    ("private key block", private_key_block)
    ∷ ("GitHub personal access token", bounded (literal "ghp_") (times 36 alphanumeric))
    ∷ ("GitHub fine-grained token", opened (literal "github_pat_") (at_least 22 word))
    ∷ (
      "GitHub App token",
      bounded (all_of (literal "gh" ∷ in_set "sour" ∷ literal "_" ∷ [])) (times 36 alphanumeric),
    )
    ∷ ("AWS access key id", bounded (literal "AKIA") (times 16 upper_digits))
    ∷ (
      "Anthropic API key",
      opened (literal "sk-ant-") (at_least 20 (alt alphanumeric (in_set "_-"))),
    )
    ∷ ("OpenAI API key", bounded (literal "sk-") (at_least 32 alphanumeric))
    ∷ (
      "Slack token",
      opened (all_of (literal "xox" ∷ in_set "baprs" ∷ literal "-" ∷ []))
          (at_least 10 (alt alphanumeric (in_set "-"))),
    )
    ∷ ("Google API key", bounded (literal "AIza") (times 35 (alt alphanumeric (in_set "_-"))))
    ∷ ("long quoted credential literal", quoted_literal)
    ∷ []

-- The inner loop with its `break`: the first pattern that the line matches.
unfoldable pub first_secret : String → List (String × Re) → Option String
first_secret line [] = none
first_secret line ((name, pattern') ∷ rest) =
    let later = first_secret line rest in if test pattern' line then some name else later

unfoldable pub secret_in : String → Option String
secret_in line = first_secret line secret_patterns

unfoldable pub secret_finding : String → String → Finding
secret_finding path name = record {
  severity = Severity.critical;
  file = some path;
  line = none;
  description = concat ("Possible " ∷ name ∷ " added in " ∷ path ∷ "." ∷ []);
  suggested_action =
      "Remove the value, rotate the credential if it is real, and move it to a secret store.";
  source = "check:secrets";
  category = "security";
}

unfoldable pub report_secret : String → Option String → List Finding
unfolding secret_finding
report_secret path none = []
report_secret path (some name) = secret_finding path name ∷ []

unfoldable pub check_secrets : PullRequestDiff → List Finding
unfolding for_each report_secret secret_in
check_secrets diff =
    for_each
      (λ (file : DiffFile).
        for_each (λ line. report_secret file.path (secret_in line)) file.added_lines)
      diff.files
