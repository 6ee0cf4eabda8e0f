-- ===== src/Runner/Branch.antt =====
-- tooling/local-runner/src/branch.ts: the names of branches and worktrees. `normalize('NFKD')`
-- followed by `toLowerCase()` is the parameter `fold`.
use space_elysiajs_orpc.Prelude.{
  ℕ, zero, suc, String, Bool, none, some, [], ◌∷◌, ◌&&◌, ◌||◌, leb, eqb, ◌==◌, if◌then◌else◌,
  concat, show, not,
}
use space_elysiajs_orpc.Regexp.{
  Re, one_of, star, seq, group, empty, exec, test, replace, group_of, start, end,
}
use space_elysiajs_orpc.Regexp.Classes.{anything, digit, literal, maybe, plus, all_of, any_of}

abbrev max_slug_length : ℕ
max_slug_length = 40

-- `[a-z0-9]`
abbrev is_plain : ℕ → Bool
is_plain c = (leb b'a' c && leb c b'z') || (leb b'0' c && leb c b'9')

-- `r{0,n}`
abbrev at_most : ℕ → Re → Re
at_most zero r = empty
at_most (suc n) r = maybe (seq r (at_most n r))

abbrev dashes : Re
dashes = plus (literal "-")

-- `^(.{0,40})(-.*)?$` with the flag `s`.
abbrev whole_words : Re
whole_words = all_of (
    start
    ∷ group 1 (at_most max_slug_length anything)
    ∷ maybe (seq (literal "-") (star anything))
    ∷ end
    ∷ [])

-- `text.replace(expression, '$1')` for an expression that matches the whole text.
first_group : Re → String → String
first_group r text = elim (exec r text) [
  | none ↦ text
  | some p ↦ elim (group_of 1 (some p)) [ none ↦ "" | some s ↦ s ]
]

without : Re → String → String
without r = replace r (λ _. "")

module _ (fold : String → String) where
  unfoldable pub slugify : String → String
  unfolding first_group without
  slugify title =
      let dashed = replace (plus (one_of (λ c. not (is_plain c)))) (λ _. "-") (fold title) in
      let trimmed = without (any_of (seq start dashes) (seq dashes end ∷ [])) dashed in
      let slug = without (seq dashes end) (first_group whole_words trimmed) in
      if slug == "" then "issue" else slug

  unfoldable pub branch_name : ℕ → String → String
  unfolding slugify
  branch_name issue title = concat ("agent/issue-" ∷ show issue ∷ "-" ∷ slugify title ∷ [])

unfoldable pub worktree_name : ℕ → String
worktree_name issue = concat ("issue-" ∷ show issue ∷ [])

-- `^agent\/issue-[0-9]+-[a-z0-9-]+$`
unfoldable pub is_agent_branch : String → Bool
is_agent_branch branch =
    test
      (all_of (
        start
        ∷ literal "agent/issue-"
        ∷ plus digit
        ∷ literal "-"
        ∷ plus (one_of (λ c. is_plain c || eqb c b'-'))
        ∷ end
        ∷ []))
      branch
