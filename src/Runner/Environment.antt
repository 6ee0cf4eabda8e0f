-- ===== src/Runner/Environment.antt =====
-- tooling/local-runner/src/exec.ts: which variables of its environment the runner hands to a child
-- process. An object with text keys is a map; the variables of the process are a function.
pub mod Separation
use space_elysiajs_orpc.Prelude.{String, Option, none, some, List, [], ◌∷◌, ◌++◌}
use space_elysiajs_orpc.Prelude.Assoc.{set}

abbrev pub base_variables : List String
base_variables =
    "HOME" ∷ "PATH" ∷ "USER" ∷ "LOGNAME" ∷ "SHELL" ∷ "LANG" ∷ "LC_ALL" ∷ "TERM" ∷ "TMPDIR" ∷ "TZ"
    ∷ "XDG_CONFIG_HOME" ∷ "XDG_CACHE_HOME" ∷ "XDG_DATA_HOME" ∷ "HTTP_PROXY" ∷ "HTTPS_PROXY"
    ∷ "NO_PROXY" ∷ "http_proxy" ∷ "https_proxy" ∷ "no_proxy" ∷ "NODE_EXTRA_CA_CERTS" ∷ []

abbrev pub claude_variables : List String
claude_variables =
    "CLAUDE_CODE_OAUTH_TOKEN" ∷ "ANTHROPIC_API_KEY" ∷ "ANTHROPIC_AUTH_TOKEN" ∷ "ANTHROPIC_BASE_URL"
    ∷ "ANTHROPIC_MODEL" ∷ "CLAUDE_CODE_USE_BEDROCK" ∷ "CLAUDE_CODE_USE_VERTEX" ∷ "CLAUDE_CONFIG_DIR"
    ∷ []

abbrev pub github_variables : List String
github_variables = "GH_TOKEN" ∷ "GITHUB_TOKEN" ∷ "GH_HOST" ∷ "GH_CONFIG_DIR" ∷ []

abbrev pub git_variables : List String
git_variables = "SSH_AUTH_SOCK" ∷ "GIT_SSH_COMMAND" ∷ []

pub data EnvProfile : Type 0 where
  base claude github git : EnvProfile

-- `ENV_PROFILES[profile]`
unfoldable pub env_profile : EnvProfile → List String
env_profile base = base_variables
env_profile claude = base_variables ++ claude_variables
env_profile github = base_variables ++ (github_variables ++ git_variables)
env_profile git = base_variables ++ git_variables

-- The loop over the names of the profile.
pub copy_variables :
    (String → Option String) → List String → List (String × String) → List (String × String)
copy_variables source [] environment = environment
copy_variables source (name ∷ names) environment =
    copy_variables source names
      (elim (source name) [ none ↦ environment | some value ↦ set environment name value ])

-- `{ ...environment, ...extra }`
pub spread : List (String × String) → List (String × String) → List (String × String)
spread environment [] = environment
spread environment ((name, value) ∷ extra) = spread (set environment name value) extra

unfoldable pub filtered_environment :
    (String → Option String) → List (String × String) → EnvProfile → List (String × String)
unfolding copy_variables spread env_profile
filtered_environment source extra profile =
    spread (copy_variables source (env_profile profile) []) extra
