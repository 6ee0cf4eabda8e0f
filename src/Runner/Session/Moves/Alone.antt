-- ===== src/Runner/Session/Moves/Alone.antt =====
-- Moving the runs in flight never puts another one in flight.
use space_elysiajs_orpc.Prelude.{
  ℕ, ◌+◌, ◌≤◌, String, true, false, Option, none, some, List, [], ◌∷◌, ◌≡◌, refl, sym, subst, arith,
  length, inl, inr, ◌==◌, is_empty, if◌then◌else◌,
}
use space_elysiajs_orpc.Runner.{RunnerConfig}
use space_elysiajs_orpc.Runner.Advance.{
  AdvanceAction, Remote, PullRequestState, open_state, merged_state, closed_state, Mergeability,
  clean, behind, conflicted, held, unknown, advance_at, waiting_for_ci, ci_failed_fixing, conflict,
  updated_branch, awaiting_merge, merged, closed, retries_exhausted, nothing_to_do,
  nothing_in_flight,
}
use space_elysiajs_orpc.Runner.Branch.{worktree_name}
use space_elysiajs_orpc.Runner.Github.{GhPullRequest, state_of, mergeability_of}
use space_elysiajs_orpc.Runner.Journal.{RunRecord, Journal, in_flight}
use space_elysiajs_orpc.Runner.Journal.Lookup.{
  OnlyInFlight, upsert_run-OnlyInFlight, single-OnlyInFlight,
}
use space_elysiajs_orpc.Runner.Machine.{
  ◌>>=◌, pure, Machine, Services, call, Call, read_journal, write_journal, Result, ok, thrown,
  view_pull_request, update_branch, git, remove_label, add_labels, comment, checks_failing,
}
use space_elysiajs_orpc.Runner.Machine.Laws.{
  Keeps, Leads, Keeps-bind, Keeps-catch, Keeps-pure, Keeps-of-Leads, Runs-bind, Runs-after,
  Leads-pure,
}
use space_elysiajs_orpc.Runner.Advance.Writes.{advance_at-Writes}
use space_elysiajs_orpc.Runner.Git.Keeping.{Keeps-if}
use space_elysiajs_orpc.Runner.Work.{Deps}
use space_elysiajs_orpc.Runner.Session.Moves.{
  Moved, moved_by, try_update, observe_pull, remove_own, before_write, after_write, apply_move,
  move_run, move_all, advance_machine,
}

advance_at-OnlyInFlight :
    (config : RunnerConfig) (state : PullRequestState) (remote : Remote) (run : RunRecord)
    (j : Journal)
    → OnlyInFlight run.issue j
    → OnlyInFlight run.issue (advance_at config state remote run j).1
advance_at-OnlyInFlight config state remote run j h =
    elim (advance_at-Writes config state remote run j) [
      | inl e ↦ subst (OnlyInFlight run.issue) (sym e) h
      | inr (written, own, e) ↦
          subst (OnlyInFlight run.issue) (sym e) (upsert_run-OnlyInFlight run.issue j written own h)
    ]

module _ {W : Type 0} (deps : Deps) (services : Services W) where
  Alone : ℕ → Machine W → Type 0
  Alone n s = OnlyInFlight n s.journal

  call-Alone : (n : ℕ) (c : Call) → Keeps (Alone n) (call services c)
  unfolding Keeps Alone call
  call-Alone n c s h = h

  try_update-Alone :
      (n number : ℕ) (m : Mergeability) → Keeps (Alone n) (try_update deps services number m)
  unfolding try_update
  try_update-Alone n number behind =
      Keeps-catch (Alone n) _ _
        (Keeps-bind (Alone n) _ _ (call-Alone n (update_branch number))
          (λ _. Keeps-pure (Alone n) true))
        (λ _. Keeps-pure (Alone n) false)
  try_update-Alone n number clean = Keeps-pure (Alone n) false
  try_update-Alone n number conflicted = Keeps-pure (Alone n) false
  try_update-Alone n number held = Keeps-pure (Alone n) false
  try_update-Alone n number unknown = Keeps-pure (Alone n) false

  observe_pull-Alone :
      (n number : ℕ) (p : GhPullRequest) (state : PullRequestState)
      → Keeps (Alone n) (observe_pull deps services number p state)
  unfolding observe_pull
  observe_pull-Alone n number p open_state =
      Keeps-bind (Alone n) _ _ (call-Alone n (view_pull_request number)) (λ viewed.
        Keeps-bind (Alone n) _ _
          (try_update-Alone n number (mergeability_of deps.upper deps.lower viewed))
          (λ updates. Keeps-pure (Alone n) _))
  observe_pull-Alone n number p merged_state = Keeps-pure (Alone n) _
  observe_pull-Alone n number p closed_state = Keeps-pure (Alone n) _

  remove_own-Alone : (n : ℕ) (run : RunRecord) → Keeps (Alone n) (remove_own deps services run)
  unfolding remove_own
  remove_own-Alone n run =
      Keeps-if (Alone n) (run.worktree == deps.resolve (worktree_name run.issue)) _ _
        (Keeps-catch (Alone n) _ _
          (Keeps-bind (Alone n) _ _
            (call-Alone n
              (git deps.repository ("worktree" ∷ "remove" ∷ "--force" ∷ run.worktree ∷ [])))
            (λ _. Keeps-pure (Alone n) tt))
          (λ _. Keeps-pure (Alone n) tt))
        (Keeps-pure (Alone n) tt)

  before_write-Alone :
      (n : ℕ) (action : AdvanceAction) (run : RunRecord)
      → Keeps (Alone n) (before_write deps services action run)
  unfolding before_write
  before_write-Alone n merged run = remove_own-Alone n run
  before_write-Alone n closed run = remove_own-Alone n run
  before_write-Alone n waiting_for_ci run = Keeps-pure (Alone n) tt
  before_write-Alone n ci_failed_fixing run = Keeps-pure (Alone n) tt
  before_write-Alone n conflict run = Keeps-pure (Alone n) tt
  before_write-Alone n updated_branch run = Keeps-pure (Alone n) tt
  before_write-Alone n awaiting_merge run = Keeps-pure (Alone n) tt
  before_write-Alone n retries_exhausted run = Keeps-pure (Alone n) tt
  before_write-Alone n nothing_to_do run = Keeps-pure (Alone n) tt

  after_write-Alone :
      (n : ℕ) (action : AdvanceAction) (names : List String) (run : RunRecord)
      → Keeps (Alone n) (after_write deps services action names run)
  unfolding after_write
  after_write-Alone n retries_exhausted names run =
      Keeps-bind (Alone n) _ _ (call-Alone n (remove_label run.issue "agent:review")) (λ _.
        Keeps-bind (Alone n) _ _ (call-Alone n (add_labels run.issue ("agent:blocked" ∷ [])))
          (λ _. call-Alone n (comment run.issue (checks_failing (run.ci_rounds + 1) names))))
  after_write-Alone n merged names run = Keeps-pure (Alone n) tt
  after_write-Alone n closed names run = Keeps-pure (Alone n) tt
  after_write-Alone n waiting_for_ci names run = Keeps-pure (Alone n) tt
  after_write-Alone n ci_failed_fixing names run = Keeps-pure (Alone n) tt
  after_write-Alone n conflict names run = Keeps-pure (Alone n) tt
  after_write-Alone n updated_branch names run = Keeps-pure (Alone n) tt
  after_write-Alone n awaiting_merge names run = Keeps-pure (Alone n) tt
  after_write-Alone n nothing_to_do names run = Keeps-pure (Alone n) tt

  write-Runs : (n : ℕ) (j : Journal) → OnlyInFlight n j → Keeps (Alone n) (write_journal {W = W} j)
  unfolding Keeps Alone write_journal
  write-Runs n j k s i = k

  read-Runs : (n : ℕ) → Leads (Alone n) (Alone n) (read_journal {W = W}) (OnlyInFlight n)
  unfolding Leads Alone read_journal
  read-Runs n s i = (i, i)

  apply_move-Alone :
      (run : RunRecord) (remote : Remote)
      → Leads (Alone run.issue) (Alone run.issue) (apply_move deps services run remote) (λ _. Unit)
  unfolding apply_move
  apply_move-Alone run remote =
      let n = run.issue in
      Runs-bind (Alone n) _ _ _ _ (read-Runs n) (λ journal alone.
        let after = advance_at deps.config remote.state remote run journal in
        Runs-after (Alone n) _ _ _ (before_write-Alone n after.0 run) (λ _.
          Runs-after (Alone n) _ _ _
            (write-Runs n after.1
              (advance_at-OnlyInFlight deps.config remote.state remote run journal alone))
            (λ _.
              Runs-after (Alone n) _ _ _ (after_write-Alone n after.0 remote.failing_checks run)
                (λ _. Leads-pure (Alone n) after.0 _ tt))))

  move_run-Alone :
      (run : RunRecord) (number : Option ℕ)
      → Keeps (Alone run.issue) (move_run deps services run number)
  unfolding move_run
  move_run-Alone run none = Keeps-pure (Alone run.issue) nothing_to_do
  move_run-Alone run (some number) =
      let n = run.issue in
      Keeps-bind (Alone n) _ _ (call-Alone n (view_pull_request number)) (λ p.
        Keeps-bind (Alone n) _ _ (observe_pull-Alone n number p (state_of deps.upper deps.lower p))
          (λ remote. Keeps-of-Leads (Alone n) _ _ (apply_move-Alone run remote)))

  move_none-Alone : (n : ℕ) → Keeps (Alone n) (move_all deps services [])
  unfolding move_all
  move_none-Alone n = Keeps-pure (Alone n) _

  move_one-Alone : (run : RunRecord) → Keeps (Alone run.issue) (move_all deps services (run ∷ []))
  unfolding move_all
  move_one-Alone run =
      Keeps-bind (Alone run.issue) _ _ (move_run-Alone run run.pull_request) (λ action.
        Keeps-bind (Alone run.issue) _ _ (move_none-Alone run.issue)
          (λ later. Keeps-pure (Alone run.issue) (moved_by run action ∷ later)))

  moved-AtMostOne :
      (s : Machine W) (runs : List RunRecord)
      → in_flight s.journal ≡ runs
      → length (in_flight s.journal) ≤ 1
      → length (in_flight (move_all deps services runs s).1.journal) ≤ 1
  unfolding move_all Keeps Alone
  moved-AtMostOne s [] e h = h
  moved-AtMostOne s (run ∷ []) e h =
      (move_one-Alone run s (single-OnlyInFlight run s.journal e)).at_most_one
  moved-AtMostOne s (run ∷ (more ∷ rest)) e h =
      let bad : ⊥ = omega (arith, subst (λ l. length l ≤ 1) e h) in elim bad [ ]

  result_state :
      (r : Result (List Moved)) (t : Machine W)
      → (((λ (_ : Machine W). (r, t)) >>= λ (moves : List Moved). pure (
            if is_empty moves
            then record { outcome = nothing_in_flight; risk = none } ∷ []
            else moves))
          t).1
        ≡ t
  result_state (ok moves) t = refl
  result_state (thrown message) t = refl

  -- Moving the runs in flight keeps at most one in flight, whether a call throws or not.
  pub advance_machine-AtMostOne :
      (s : Machine W)
      → length (in_flight s.journal) ≤ 1
      → length (in_flight (advance_machine deps services s).1.journal) ≤ 1
  unfolding advance_machine read_journal
  advance_machine-AtMostOne s h =
      subst (λ (t : Machine W). length (in_flight t.journal) ≤ 1)
        (sym (
          result_state (move_all deps services (in_flight s.journal) s).0
            (move_all deps services (in_flight s.journal) s).1))
        (moved-AtMostOne s (in_flight s.journal) refl h)
