-- ===== src/ControlPlane/Assessment.antt =====
-- When a change is said to reach the control plane.
use space_elysiajs_orpc.Prelude.{
  String, Bool, true, false, Option, none, some, List, [], ◌∷◌, ◌++◌, ◌≡◌, refl, arith, not,
  is_empty, length, any, ◌||◌,
}
use space_elysiajs_orpc.Policy.{LoopPolicy}
use space_elysiajs_orpc.Glob.{matches_any_glob}
use space_elysiajs_orpc.Diff.{DiffFile, PullRequestDiff}
use space_elysiajs_orpc.ControlPlane.{
  first_signal, changed_lines_carry_policy, add_file, assess_files, assess_control_plane,
}

module _ (signals : String → String → Bool) (policy : LoopPolicy) where
  -- Some changed line of the file matches some signal.
  abbrev pub carries_signal : DiffFile → Bool
  carries_signal f =
      any (λ line. any (λ s. signals s line) policy.control_plane.policy_signals)
        (f.added_lines ++ f.removed_lines)

  abbrev is_some {ℓ} : {A : Type ℓ} → Option A → Bool
  is_some none = false
  is_some (some _) = true

  first_signal_some :
      (l : List String) (line : String)
      → is_some (first_signal signals l line) ≡ any (λ s. signals s line) l
  unfolding first_signal
  first_signal_some [] line = refl
  first_signal_some (s ∷ l) line = ground (arith, first_signal_some l line)

  carry_some :
      (l lines : List String)
      → is_some (changed_lines_carry_policy signals l lines)
        ≡ any (λ line. any (λ s. signals s line) l) lines
  unfolding changed_lines_carry_policy
  carry_some l [] = refl
  carry_some l (line ∷ lines) = ground (arith, carry_some l lines, first_signal_some l line)

  abbrev pub is_policy : DiffFile → Bool
  is_policy f = matches_any_glob policy.control_plane.always_policy f.path || carries_signal f

  abbrev pub reaches : DiffFile → Bool
  reaches f = matches_any_glob policy.control_plane.patterns f.path || is_policy f

  -- `affected`, and the pairing of files with reasons.
  assess_files_exact :
      (files : List DiffFile)
      → let a = assess_files signals policy files in
        (a.affected ≡ any reaches files)
        × (a.policy_bearing ≡ any is_policy files)
        × (length a.files ≡ length a.reasons)
        × (a.affected ≡ not (is_empty a.reasons))
  unfolding assess_files add_file
  assess_files_exact [] = (refl, refl, refl, refl)
  assess_files_exact (f ∷ files) = ground (
    arith,
    assess_files_exact files,
    carry_some policy.control_plane.policy_signals (f.added_lines ++ f.removed_lines),
  )

  -- A change is assessed as it is: it is affected exactly when one of its files matches a
  -- control-plane pattern, matches one of the patterns that are always policy, or changes a line
  -- that matches a signal; it bears policy exactly when one of the latter two holds of a file; each
  -- file reported has its reason, and there are reasons exactly when it is affected.
  pub assess_control_plane_exact :
      (diff : PullRequestDiff)
      → let a = assess_control_plane signals diff policy in
        (a.affected ≡ any reaches diff.files)
        × (a.policy_bearing ≡ any is_policy diff.files)
        × (length a.files ≡ length a.reasons)
        × (a.affected ≡ not (is_empty a.reasons))
  unfolding assess_control_plane
  assess_control_plane_exact diff = assess_files_exact diff.files
