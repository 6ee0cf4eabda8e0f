-- ===== src/Runner/Environment/Separation.antt =====
-- What a child process sees of the environment, and which credentials no profile mixes.
use space_elysiajs_orpc.Prelude.{
  String, true, false, Option, none, some, List, [], ◌∷◌, ◌≡◌, refl, sym, arith, includes, Distinct,
  Bool-cases, Option-cases, inl, inr, if◌then◌else◌, ◌==◌, eq_iff, ap, ◌∙◌, any, any-of_mem,
  includes_iff, ◌⊎◌,
}
use space_elysiajs_orpc.Prelude.Assoc.{get, set, get-set, keys, has-eq-includes}
use space_elysiajs_orpc.Runner.Environment.{
  EnvProfile, base, claude, github, git, env_profile, copy_variables, spread, filtered_environment,
  claude_variables, github_variables, git_variables,
}

-- The first that is there.
abbrev pub first_of : Option String → Option String → Option String
first_of none o = o
first_of (some v) o = some v

first_of-none : (o : Option String) → first_of o none ≡ o
first_of-none none = refl
first_of-none (some v) = refl

get-copy_variables :
    (source : String → Option String) (names : List String) (environment : List (String × String))
    (name : String)
    → get (copy_variables source names environment) name ≡ (
        if includes name names
        then first_of (source name) (get environment name)
        else get environment name)
unfolding copy_variables
get-copy_variables source [] environment name = refl
get-copy_variables source (n ∷ names) environment name =
    let same = λ (q : (n == name) ≡ true). ap source ((eq_iff n name).0 q) in
    elim (Option-cases (source n)) [
      | inl e ↦ rw e (elim (Bool-cases (n == name)) [
        | inl q ↦
            let f : source name ≡ none = sym (same q) ∙ e in
            rw (q, get-copy_variables source names environment name, f) ground arith
        | inr q ↦ rw q (get-copy_variables source names environment name)
      ])
      | inr (v, e) ↦
          rw
            (
              e,
              get-copy_variables source names (set environment n v) name,
              get-set environment n name v,
            )
            (elim (Bool-cases (n == name)) [
              | inl q ↦ let f : source name ≡ some v = sym (same q) ∙ e in rw (q, f) ground arith
              | inr q ↦ rw q refl
            ])
    ]

get-spread :
    (environment extra : List (String × String)) (name : String)
    → Distinct (keys extra)
    → get (spread environment extra) name ≡ first_of (get extra name) (get environment name)
unfolding spread get
get-spread environment [] name d = refl
get-spread environment ((n, v) ∷ extra) name d =
    rw (get-spread (set environment n v) extra name d.1, get-set environment n name v)
      (elim (Bool-cases (n == name)) [
        | inl q ↦
            let absent : get extra name ≡ none =
              ground (arith, d.0, has-eq-includes extra name, (eq_iff n name).0 q) in
            rw (q, absent) refl
        | inr q ↦ rw q refl
      ])

-- What a child sees under a name: the value it was given for it, and without one the runner's own
-- value, but only of a variable that its profile lists.
pub filtered_environment_exact :
    (source : String → Option String) (extra : List (String × String)) (profile : EnvProfile)
    (name : String)
    → Distinct (keys extra)
    → get (filtered_environment source extra profile) name
      ≡ first_of
          (get extra name)
          (if includes name (env_profile profile) then source name else none)
unfolding filtered_environment get
filtered_environment_exact source extra profile name d =
    rw
      (
        get-spread (copy_variables source (env_profile profile) []) extra name d,
        get-copy_variables source (env_profile profile) [] name,
      )
      (rw (first_of-none (source name)) refl)

-- No text is in both lists, by a test that computes.
apart :
    (xs ys : List String) (name : String)
    → any (λ x. includes x ys) xs ≡ false
    → includes name xs ≡ true
    → includes name ys ≡ false
apart xs ys name h m = elim (Bool-cases (includes name ys)) [
  | inl e ↦
      let q = any-of_mem (λ x. includes x ys) name xs ((includes_iff name xs).0 m) e in ground arith
  | inr e ↦ e
]

listed_of_get :
    (source : String → Option String) (profile : EnvProfile) (name : String) {value : String}
    → get (filtered_environment source [] profile) name ≡ some value
    → includes name (env_profile profile) ≡ true
unfolding get
listed_of_get source profile name h =
    let e = filtered_environment_exact source [] profile name tt in
    elim (Bool-cases (includes name (env_profile profile))) [
      | inl q ↦ q
      | inr q ↦ let e' = rw q at e in cc
    ]

-- A name of one list is not under a profile that shares nothing with the list.
foreign :
    {A : Type 0} (xs ys : List String) (name : String)
    → any (λ x. includes x ys) xs ≡ false
    → includes name xs ≡ true
    → includes name ys ≡ true
    → A
foreign xs ys name h m e = let q = apart xs ys name h m in cc

claude_only :
    (profile : EnvProfile) (name : String)
    → includes name claude_variables ≡ true
    → includes name (env_profile profile) ≡ true
    → profile ≡ claude
unfolding env_profile
claude_only base name m l = foreign claude_variables (env_profile base) name refl m l
claude_only claude name m l = refl
claude_only github name m l = foreign claude_variables (env_profile github) name refl m l
claude_only git name m l = foreign claude_variables (env_profile git) name refl m l

github_only :
    (profile : EnvProfile) (name : String)
    → includes name github_variables ≡ true
    → includes name (env_profile profile) ≡ true
    → profile ≡ github
unfolding env_profile
github_only base name m l = foreign github_variables (env_profile base) name refl m l
github_only claude name m l = foreign github_variables (env_profile claude) name refl m l
github_only github name m l = refl
github_only git name m l = foreign github_variables (env_profile git) name refl m l

git_only :
    (profile : EnvProfile) (name : String)
    → includes name git_variables ≡ true
    → includes name (env_profile profile) ≡ true
    → (profile ≡ git) ⊎ (profile ≡ github)
unfolding env_profile
git_only base name m l = foreign git_variables (env_profile base) name refl m l
git_only claude name m l = foreign git_variables (env_profile claude) name refl m l
git_only github name m l = inr refl
git_only git name m l = inl refl

-- A child with nothing added sees a variable of Claude only under the
-- profile for Claude, one of GitHub only under the profile for GitHub, and one of git only under the
-- profiles for git and GitHub.
pub credentials_separated :
    (source : String → Option String) (profile : EnvProfile) (name value : String)
    → get (filtered_environment source [] profile) name ≡ some value
    → (includes name claude_variables ≡ true → profile ≡ claude)
      × (includes name github_variables ≡ true → profile ≡ github)
      × (includes name git_variables ≡ true → (profile ≡ git) ⊎ (profile ≡ github))
credentials_separated source profile name value h =
    let listed : includes name (env_profile profile) ≡ true = listed_of_get source profile name h in
    (
      λ m. claude_only profile name m listed,
      λ m. github_only profile name m listed,
      λ m. git_only profile name m listed,
    )
