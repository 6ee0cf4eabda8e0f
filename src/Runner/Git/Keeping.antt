-- ===== src/Runner/Git/Keeping.antt =====
-- What the git operations keep: an invariant that is kept by every command in a directory of the
-- work's own but a push, and by a push of an agent's branch alone.
use space_elysiajs_orpc.Prelude.{
  String, Bool, true, false, List, [], ◌∷◌, ◌≡◌, refl, ◌==◌, Bool-cases, inl, inr, if◌then◌else◌,
  concat, eqb, not, ◌||◌, ◌&&◌, number_of,
}
use space_elysiajs_orpc.Detect.{trim}
use space_elysiajs_orpc.Regexp.{test}
use space_elysiajs_orpc.Regexp.Classes.{literal}
use space_elysiajs_orpc.Runner.Verify.{RunResult}
use space_elysiajs_orpc.Runner.Branch.{is_agent_branch}
use space_elysiajs_orpc.Runner.Machine.{M, Machine, Services, Call, call, git}
use space_elysiajs_orpc.Runner.Machine.Laws.{Keeps, Keeps-bind, Keeps-pure, Keeps-throw}
use space_elysiajs_orpc.Runner.Git.{
  WorktreeRequest, expected, expect, changed_files, has_commits_beyond, add_worktree, unless_listed,
  ensure_worktree, fetch_base, commit_staged, commit_all, push_branch, abort_failed, merge_behind,
  rebase_onto_base, git_in,
}

-- `git push`
abbrev pub is_push : List String → Bool
is_push [] = false
is_push (word ∷ _) = word == "push"

abbrev pub push_args : String → String → List String
push_args remote branch = "push" ∷ "-u" ∷ remote ∷ concat (branch ∷ ":" ∷ branch ∷ []) ∷ []

pub Keeps-if :
    {S A : Type 0} (I : S → Type 0) (b : Bool) (m n : M S A)
    → Keeps I m
    → Keeps I n
    → Keeps I (if b then m else n)
Keeps-if I true m n h g = h
Keeps-if I false m n h g = g

module _ {W : Type 0} (services : Services W) (I : Machine W → Type 0) (P : Call → Type 0)
    (Here : String → Type 0) (called : (c : Call) → P c → Keeps I (call services c))
    (command : (cwd : String) (args : List String)
      → Here cwd
      → is_push args ≡ false
      → P (git cwd args)) where
  pub git_in-Keeps :
      (cwd : String) (args : List String)
      → Here cwd
      → is_push args ≡ false
      → Keeps I (git_in services cwd args)
  git_in-Keeps cwd args h e = called (git cwd args) (command cwd args h e)

  expected-Keeps :
      (args : List String) (result : RunResult) → Keeps I (expected services args result)
  unfolding expected
  expected-Keeps args result =
      Keeps-if I (eqb result.code 0) _ _ (Keeps-pure I _) (Keeps-throw I _ _)

  expect-Keeps :
      (cwd : String) (args : List String)
      → Here cwd
      → is_push args ≡ false
      → Keeps I (expect services cwd args)
  unfolding expect
  expect-Keeps cwd args h e =
      Keeps-bind I _ _ (git_in-Keeps cwd args h e) (λ r. expected-Keeps args r)

  pub changed_files-Keeps :
      (cwd base : String) → Here cwd → Keeps I (changed_files services cwd base)
  unfolding changed_files
  changed_files-Keeps cwd base h =
      Keeps-bind I _ _ (expect-Keeps cwd _ h refl) (λ output. Keeps-pure I _)

  pub has_commits_beyond-Keeps :
      (cwd base : String) → Here cwd → Keeps I (has_commits_beyond services cwd base)
  unfolding has_commits_beyond
  has_commits_beyond-Keeps cwd base h =
      Keeps-bind I _ _ (expect-Keeps cwd _ h refl) (λ count. Keeps-pure I _)

  worktree_args-is_push :
      (request : WorktreeRequest) (b : Bool)
      → is_push (
          if b
          then "worktree" ∷ "add" ∷ request.path ∷ request.branch ∷ []
          else "worktree" ∷ "add" ∷ "-b" ∷ request.branch ∷ request.path ∷ request.base ∷ [])
        ≡ false
  worktree_args-is_push request true = refl
  worktree_args-is_push request false = refl

  add_worktree-Keeps :
      (request : WorktreeRequest)
      → Here request.repository
      → Keeps I (add_worktree services request)
  unfolding add_worktree
  add_worktree-Keeps request h =
      Keeps-bind I _ _ (git_in-Keeps request.repository _ h refl) (λ exists.
        Keeps-bind I _ _
          (expect-Keeps request.repository _ h (worktree_args-is_push request (eqb exists.code 0)))
          (λ _. Keeps-pure I _))

  unless_listed-Keeps :
      (request : WorktreeRequest) (r : RunResult)
      → Here request.repository
      → Keeps I (unless_listed services request r)
  unfolding unless_listed
  unless_listed-Keeps request r h =
      Keeps-if I
        (eqb r.code 0 && test (literal (concat ("worktree " ∷ request.path ∷ "\n" ∷ []))) r.stdout)
        _ _ (Keeps-pure I _) (add_worktree-Keeps request h)

  pub ensure_worktree-Keeps :
      (request : WorktreeRequest)
      → Here request.repository
      → Keeps I (ensure_worktree services request)
  unfolding ensure_worktree
  ensure_worktree-Keeps request h =
      Keeps-if I (not (is_agent_branch request.branch)) _ _ (Keeps-throw I _ _) (
        Keeps-bind I _ _ (git_in-Keeps request.repository _ h refl)
          (λ r. unless_listed-Keeps request r h))

  pub fetch_base-Keeps :
      (repository remote branch : String)
      → Here repository
      → Keeps I (fetch_base services repository remote branch)
  unfolding fetch_base
  fetch_base-Keeps repository remote branch h =
      Keeps-bind I _ _ (expect-Keeps repository _ h refl) (λ _. Keeps-pure I _)

  commit_staged-Keeps :
      (cwd message : String) (r : RunResult)
      → Here cwd
      → Keeps I (commit_staged services cwd message r)
  unfolding commit_staged
  commit_staged-Keeps cwd message r h =
      Keeps-if I (eqb r.code 0) _ _ (Keeps-pure I _)
        (Keeps-bind I _ _ (expect-Keeps cwd _ h refl) (λ _. Keeps-pure I _))

  pub commit_all-Keeps :
      (cwd message : String) → Here cwd → Keeps I (commit_all services cwd message)
  unfolding commit_all
  commit_all-Keeps cwd message h =
      Keeps-bind I _ _ (expect-Keeps cwd _ h refl) (λ _.
        Keeps-bind I _ _ (git_in-Keeps cwd _ h refl) (λ r. commit_staged-Keeps cwd message r h))

  abort_failed-Keeps :
      (worktree : String) (r : RunResult)
      → Here worktree
      → Keeps I (abort_failed services worktree r)
  unfolding abort_failed
  abort_failed-Keeps worktree r h =
      Keeps-if I (eqb r.code 0) _ _ (Keeps-pure I _)
        (Keeps-bind I _ _ (git_in-Keeps worktree _ h refl) (λ _. Keeps-pure I _))

  merge_behind-Keeps :
      (worktree base : String) (r : RunResult)
      → Here worktree
      → Keeps I (merge_behind services worktree base r)
  unfolding merge_behind
  merge_behind-Keeps worktree base r h =
      Keeps-if I (not (eqb r.code 0) || eqb (number_of (trim r.stdout)) 0) _ _ (Keeps-pure I _)
        (Keeps-bind I _ _ (git_in-Keeps worktree _ h refl) (λ m. abort_failed-Keeps worktree m h))

  pub rebase_onto_base-Keeps :
      (worktree base : String) → Here worktree → Keeps I (rebase_onto_base services worktree base)
  unfolding rebase_onto_base
  rebase_onto_base-Keeps worktree base h =
      Keeps-bind I _ _ (git_in-Keeps worktree _ h refl) (λ r. merge_behind-Keeps worktree base r h)

  -- A push happens for an agent's branch alone, and never by force.
  pub push_branch-Keeps :
      (cwd remote branch : String)
      → (is_agent_branch branch ≡ true → P (git cwd (push_args remote branch)))
      → Keeps I (push_branch services cwd remote branch)
  unfolding push_branch
  push_branch-Keeps cwd remote branch allowed = elim (Bool-cases (is_agent_branch branch)) [
    | inl e ↦ rw e (called _ (allowed e))
    | inr e ↦ rw e (Keeps-throw I _ _)
  ]
