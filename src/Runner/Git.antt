-- ===== src/Runner/Git.antt =====
-- tooling/local-runner/src/git.ts, and `rebaseOntoBase` of orchestrator.ts. A count that git prints
-- is digits.
pub mod Keeping
use space_elysiajs_orpc.Prelude.{
  ℕ, String, Bool, true, false, List, [], ◌∷◌, ◌||◌, ◌&&◌, ◌==◌, eqb, ltb, not, head?, Option, none,
  some, if◌then◌else◌, concat, number_of,
}
use space_elysiajs_orpc.Detect.{trim}
use space_elysiajs_orpc.Diff.{split_lines}
use space_elysiajs_orpc.Regexp.{test}
use space_elysiajs_orpc.Regexp.Classes.{literal}
use space_elysiajs_orpc.Runner.Verify.{RunResult}
use space_elysiajs_orpc.Runner.Branch.{is_agent_branch}
use space_elysiajs_orpc.Runner.Machine.{
  M, ◌>>=◌, ◌>>◌, pure, throw, Machine, Services, Call, call, git,
}

-- `result.stderr.trim() || result.stdout.trim()`
abbrev pub complaint : RunResult → String
complaint result = if trim result.stderr == "" then trim result.stdout else trim result.stderr

pub record WorktreeRequest : Type 0 where
  pub repository : String
  pub path : String
  pub branch : String
  pub base : String

abbrev first_word : List String → String
first_word args = elim (head? args) [ none ↦ "undefined" | some word ↦ word ]

module _ {W : Type 0} (services : Services W) where
  abbrev pub git_in : String → List String → M (Machine W) RunResult
  git_in cwd args = call services (git cwd args)

  expected : List String → RunResult → M (Machine W) String
  expected args result =
      if eqb result.code 0
      then pure (trim result.stdout)
      else throw (concat ("git " ∷ first_word args ∷ " failed: " ∷ complaint result ∷ []))

  pub expect : String → List String → M (Machine W) String
  unfolding expected
  expect cwd args = do result ← git_in cwd args; expected args result

  unfoldable pub changed_files : String → String → M (Machine W) (List String)
  unfolding expect
  changed_files cwd base = do
    output ← expect cwd ("diff" ∷ "--name-only" ∷ concat (base ∷ "...HEAD" ∷ []) ∷ [])
    pure (if output == "" then [] else split_lines output)

  unfoldable pub has_commits_beyond : String → String → M (Machine W) Bool
  unfolding expect
  has_commits_beyond cwd base = do
    count ← expect cwd ("rev-list" ∷ "--count" ∷ concat (base ∷ "..HEAD" ∷ []) ∷ [])
    pure (ltb 0 (number_of count))

  -- `{ created }`
  add_worktree : WorktreeRequest → M (Machine W) Bool
  unfolding expect
  add_worktree request = do
    exists ←
        git_in request.repository
          ("show-ref" ∷ "--verify" ∷ "--quiet" ∷ concat ("refs/heads/" ∷ request.branch ∷ []) ∷ [])
    _ ← expect request.repository (
        if eqb exists.code 0
        then "worktree" ∷ "add" ∷ request.path ∷ request.branch ∷ []
        else "worktree" ∷ "add" ∷ "-b" ∷ request.branch ∷ request.path ∷ request.base ∷ [])
    pure true

  unless_listed : WorktreeRequest → RunResult → M (Machine W) Bool
  unfolding add_worktree
  unless_listed request existing =
      if eqb existing.code 0
        && test (literal (concat ("worktree " ∷ request.path ∷ "\n" ∷ []))) existing.stdout
      then pure false
      else add_worktree request

  unfoldable pub ensure_worktree : WorktreeRequest → M (Machine W) Bool
  unfolding unless_listed
  ensure_worktree request =
      if not (is_agent_branch request.branch)
      then throw
          (concat ("Refusing to create a worktree for a non-agent branch: " ∷ request.branch ∷ []))
      else (do
        existing ← git_in request.repository ("worktree" ∷ "list" ∷ "--porcelain" ∷ [])
        unless_listed request existing)

  unfoldable pub fetch_base : String → String → String → M (Machine W) Unit
  unfolding expect
  fetch_base repository remote branch = do
    _ ← expect repository ("fetch" ∷ "--prune" ∷ remote ∷ branch ∷ [])
    pure tt

  commit_staged : String → String → RunResult → M (Machine W) Bool
  unfolding expect
  commit_staged cwd message staged =
      if eqb staged.code 0
      then pure false
      else (do _ ← expect cwd ("commit" ∷ "-m" ∷ message ∷ []); pure true)

  unfoldable pub commit_all : String → String → M (Machine W) Bool
  unfolding expect commit_staged
  commit_all cwd message = do
    _ ← expect cwd ("add" ∷ "--all" ∷ [])
    staged ← git_in cwd ("diff" ∷ "--cached" ∷ "--quiet" ∷ [])
    commit_staged cwd message staged

  unfoldable pub push_branch : String → String → String → M (Machine W) RunResult
  push_branch cwd remote branch =
      if not (is_agent_branch branch)
      then throw (
          concat (
            "Refusing to push " ∷ branch
            ∷ ". The runner pushes only agent/issue-* branches; merging into the default branch is the merge gate's job."
            ∷ []))
      else git_in cwd ("push" ∷ "-u" ∷ remote ∷ concat (branch ∷ ":" ∷ branch ∷ []) ∷ [])

  abort_failed : String → RunResult → M (Machine W) Unit
  abort_failed worktree merged =
      if eqb merged.code 0
      then pure tt
      else (do _ ← git_in worktree ("merge" ∷ "--abort" ∷ []); pure tt)

  merge_behind : String → String → RunResult → M (Machine W) Unit
  unfolding abort_failed
  merge_behind worktree base behind =
      if not (eqb behind.code 0) || eqb (number_of (trim behind.stdout)) 0 then pure tt else (do
        merged ← git_in worktree ("merge" ∷ "--no-edit" ∷ base ∷ [])
        abort_failed worktree merged)

  unfoldable pub rebase_onto_base : String → String → M (Machine W) Unit
  unfolding merge_behind
  rebase_onto_base worktree base = do
    behind ← git_in worktree ("rev-list" ∷ "--count" ∷ concat ("HEAD.." ∷ base ∷ []) ∷ [])
    merge_behind worktree base behind
