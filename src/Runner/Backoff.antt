-- ===== src/Runner/Backoff.antt =====
-- tooling/local-runner/src/backoff.ts: how long a failure that may pass is waited out, and which
-- failures may.
pub mod Delays
use space_elysiajs_orpc.Prelude.{
  ℕ, suc, ◌-◌, ◌*◌, ◌^◌, min, String, Bool, Option, none, some, List, [], ◌∷◌, any, ltb,
  if◌then◌else◌,
}
use space_elysiajs_orpc.Regexp.{Re, word_boundary, star, test}
use space_elysiajs_orpc.Regexp.Classes.{digit, dot, literal, literal_i, maybe, all_of, any_of}
use space_elysiajs_orpc.Runner.{RunnerConfig}

pub record Backoff : Type 0 where
  pub consecutive : ℕ

pub record Wait : Type 0 where
  pub wait_ms : ℕ
  pub consecutive : ℕ

abbrev pub new_backoff : Backoff
new_backoff = record { consecutive = 0 }

unfoldable pub succeeded : Backoff → Backoff
succeeded b = record { consecutive = 0 }

-- The answer, `none` for `null`, and the new state.
unfoldable pub failed : RunnerConfig → Backoff → Option Wait × Backoff
failed config b =
    let consecutive = suc b.consecutive in
    let base = config.backoff_base_seconds * 1000 in
    let ceiling = config.backoff_max_seconds * 1000 in
    let exponential = base * 2 ^ (consecutive - 1) in
    (
      if ltb config.max_consecutive_failures consecutive
          then none
          else some (record { wait_ms = min exponential ceiling; consecutive = consecutive }),
      record { consecutive = consecutive },
    )

-- A word between two boundaries, under the flag `i`.
abbrev whole_i : String → Re
whole_i s = all_of (word_boundary ∷ literal_i s ∷ word_boundary ∷ [])

-- `TRANSIENT_PATTERNS`
abbrev transient_patterns : List Re
transient_patterns =
    whole_i "ETIMEDOUT"
    ∷ whole_i "ECONNRESET"
    ∷ whole_i "ECONNREFUSED"
    ∷ whole_i "ENOTFOUND"
    ∷ whole_i "EAI_AGAIN"
    ∷ literal_i "socket hang up"
    ∷ literal_i "network is unreachable"
    ∷ all_of (
        word_boundary
        ∷ literal "5"
        ∷ digit
        ∷ digit
        ∷ word_boundary
        ∷ star dot
        ∷ word_boundary
        ∷ any_of (literal_i "server error") (
            literal_i "bad gateway"
            ∷ literal_i "service unavailable"
            ∷ literal_i "gateway timeout"
            ∷ [])
        ∷ word_boundary
        ∷ [])
    ∷ all_of (
        word_boundary
        ∷ any_of (literal "502") (literal "503" ∷ literal "504" ∷ [])
        ∷ word_boundary
        ∷ [])
    ∷ literal_i "rate limit"
    ∷ literal_i "secondary rate limit"
    ∷ whole_i "API rate limit exceeded"
    ∷ literal_i "temporarily unavailable"
    ∷ literal_i "timed out"
    ∷ []

unfoldable pub is_transient : String → Bool
is_transient message = any (λ r. test r message) transient_patterns

-- `AUTH_PATTERNS`
abbrev auth_patterns : List Re
auth_patterns =
    all_of (word_boundary ∷ literal "401" ∷ word_boundary ∷ [])
    ∷ all_of (word_boundary ∷ literal "403" ∷ word_boundary ∷ [])
    ∷ literal_i "bad credentials"
    ∷ literal_i "not authenticated"
    ∷ all_of (
        literal_i "authentication "
        ∷ any_of (literal_i "failed") (literal_i "rejected" ∷ literal_i "required" ∷ [])
        ∷ [])
    ∷ all_of (
        literal_i "require"
        ∷ maybe (literal_i "s")
        ∷ literal " "
        ∷ maybe (literal_i "a ")
        ∷ literal_i "login"
        ∷ [])
    ∷ all_of (
        literal_i "token "
        ∷ maybe (literal_i "is ")
        ∷ any_of (literal_i "invalid") (literal_i "expired" ∷ literal_i "revoked" ∷ [])
        ∷ [])
    ∷ []

unfoldable pub is_auth_failure : String → Bool
is_auth_failure message = any (λ r. test r message) auth_patterns
