-- ===== src/Lib.antt =====
-- The agent loop of the repository: the control plane that decides what happens to a pull request
-- (tooling/loop), and the local runner that does the work (tooling/local-runner).
--
-- A pull request is evaluated by bin/evaluate-pr.ts. Its diff is parsed, risky content is detected,
-- a risk level is classified under the policy in force and the one that it proposes, the reviews of
-- the agents are joined with what the deterministic checks find and aggregated, the merge gate
-- decides, the round is recorded in the state, and a comment is written that holds the state for the
-- next evaluation. Issues are selected by their labels and the dependencies that
-- their bodies declare. An unattended session of the runner moves its runs in flight forward and,
-- while none is and its budget lasts, takes an issue: the coding agent is asked round after round,
-- each change is classified, verified to the depth of its risk and reviewed, and what passes is
-- pushed and published as a pull request. Failures are waited out; a lock keeps one runner alone; the
-- environment of child processes is filtered, and what leaves the runner is redacted.
--
-- Prelude holds the shared helpers: Boolean tests, lists, texts, maps in insertion order, sorting.
-- Regexp is the matcher for the regular expressions of the sources; it is ECMAScript's, by
-- backtracking. The other modules and their sources:
--   Policy         tooling/loop/src/policy.ts, without the schema: a policy is its output
--   Review         tooling/loop/src/review.ts (parseReviewResult, mergeReview, blockingFindings); its
--                  child Markdown has sanitiseForMarkdown
--   Checks         tooling/loop/src/checks, a child module for each file
--   Aggregate      tooling/loop/src/aggregate.ts
--   Gate           tooling/loop/src/merge-gate.ts
--   Recurrence     tooling/loop/src/recurrence.ts
--   State          tooling/loop/src/state.ts; Json prints the state, Comment writes and reads its block
--   Glob           tooling/loop/src/glob.ts
--   Diff           tooling/loop/src/diff.ts
--   Detect         tooling/loop/src/detect.ts; its child Changes has dependencyChanges
--   ControlPlane   tooling/loop/src/control-plane.ts; Protections has findWeakenedProtections
--   Risk           tooling/loop/src/risk.ts
--   Evaluate       tooling/loop/bin/evaluate-pr.ts, from the collected inputs to the new state; its
--                  child Rendering is tooling/loop/src/summary.ts, and the comment that is written
--   Dependencies   tooling/loop/src/dependencies.ts
--   Eligibility    tooling/loop/src/eligibility.ts
--   Runner         tooling/local-runner/src: Budget (budget.ts), Backoff (backoff.ts), Environment
--                  (exec.ts, filteredEnvironment), Redact (redact.ts), Verify (verify.ts), Lock
--                  (lock.ts), Journal (journal.ts), Branch (branch.ts), Github (github.ts, the
--                  answers), Git (git.ts), Summary (summary.ts, recordIssue), Machine (agent.ts and
--                  the interface of github.ts, as calls), and of orchestrator.ts Advance (advance,
--                  on the journal alone), Work (workIssue; its children Reviews, Rounds, Issue),
--                  Once (runOnce, planDryRun) and Session (runUnattended; its child Moves is advance
--                  with its calls); the configuration fields are those of config.ts
-- Names are the source's in snake case; child modules are named for what they prove; Tests holds
-- witnesses and tests at concrete inputs.
--
-- Choices. Numbers are natural; every number of the modelled code is a count, a limit, an issue or
-- a time in milliseconds. A text is a sequence of code points, where JavaScript has UTF-16 units. A
-- message is a constructor with the values that the source puts into it, where no code reads it
-- back, and a text otherwise. A `Set` or `Map` is a list in insertion order. An object that is
-- mutated in one function is a record that is passed on; the file of the lock and the phases of the
-- processes are the state of a step relation. Parameters stand for what is not in the sources:
-- `toLowerCase`, `localeCompare`, the regular expressions that the policy holds as text, the answer
-- of the schema library, a command that runs in a world of its own or cannot be
-- started, the look-up of a tool, and the
-- readings of the clock.
-- The orchestrator runs on a machine: a world of any type, which every call to GitHub, git or an
-- agent may change, the journal, the budget, and the calls made so far. A step answers or throws, and
-- changes the machine in both cases. The journal's file is taken to be writable, and log lines and
-- log files are left out.
-- Fuel: an unattended session goes on until a reason to stop is found, so `run_unattended` takes the
-- number of turns, and what is said of it holds for every number. The recursion of `stepsForRisk`
-- has no bound in the source, so `steps_for_risk` takes a depth, and `none` is a recursion that goes
-- deeper; three calls are enough for every policy whose tiers inherit from lower ones. A repetition
-- in Regexp takes as many rounds as there are characters left, each of which consumes one. All else
-- is structural recursion.
--
-- Not modelled: the content of the worktree, of which nothing is said between a verification and a
-- push; the schemas of zod and JSON.parse, the other rendered texts (the summary of a selection,
-- report.ts, the body of a pull request), the command lines of `gh` and `claude`, and the
-- application itself (apps, packages).
pub mod Prelude
pub mod Policy
pub mod Review
pub mod Aggregate
pub mod Gate
pub mod Recurrence
pub mod State
pub mod Glob
pub mod Regexp
pub mod Diff
pub mod Detect
pub mod Checks
pub mod ControlPlane
pub mod Risk
pub mod Evaluate
pub mod Dependencies
pub mod Eligibility
pub mod Runner
pub mod Tests
