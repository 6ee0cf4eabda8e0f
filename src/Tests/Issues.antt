-- ===== src/Tests/Issues.antt =====
-- Witnesses and tests for the issues: what a body declares, what is ready, and what is selected.
use space_elysiajs_orpc.Prelude.{
  ℕ, ◌<◌, ◌⊎◌, ◌↔◌, ◌≢◌, String, true, false, none, some, List, [], ◌∷◌, ◌≡◌, refl, All, leb,
}
use space_elysiajs_orpc.Prelude.{number_of}
use space_elysiajs_orpc.Prelude.Sorting.{sort, IsSorted}
use space_elysiajs_orpc.Detect.{trim}
use space_elysiajs_orpc.Diff.{split_lines}
use space_elysiajs_orpc.Regexp.{exec, test, match_all, group_of}
use space_elysiajs_orpc.Dependencies.{parse_dependency_declaration}
use space_elysiajs_orpc.Dependencies.Declared.{parse_dependency_declaration_sound}
use space_elysiajs_orpc.Eligibility.{
  IssueSummary, open_issue, default_selection_policy, candidate_of, select_next_issue,
}
use space_elysiajs_orpc.Eligibility.Readiness.{IsReady, candidate_of-IsReady}
use space_elysiajs_orpc.Eligibility.Selection.{IsOffered, Precedes, select_next_issue_exact}

parser : Unit {0}
unfolding parse_dependency_declaration exec group_of test trim sort split_lines match_all number_of
parser = tt

parse_dependency_declaration_sound_test :
    let d = parse_dependency_declaration (some "Depends on: #13, #12") in
    All (λ n. 0 < n) d.dependencies
    × IsSorted leb d.dependencies
    × (d.dependencies ≢ [] → d.declared ≡ true)
parse_dependency_declaration_sound_test =
    parse_dependency_declaration_sound (some "Depends on: #13, #12")

-- The list below a heading is read to its end, and references elsewhere are not.
list_test :
    parse_dependency_declaration (some "text #7\n## Depends on\n\n- #13 and\n* #12\n\n#9")
    ≡ record { declared = true; dependencies = 12 ∷ 13 ∷ [] }
unfolding parser
list_test = refl

-- With the line ends of Windows the heading is not recognised.
crlf_test :
    parse_dependency_declaration (some "Depends on: #12\r\n")
    ≡ record { declared = false; dependencies = [] }
unfolding parser
crlf_test = refl

abbrev issue : ℕ → List String → IssueSummary
issue number labels = record {
  number = number;
  title = "t";
  state = open_issue;
  labels = labels;
  body = none;
}

abbrev backlog : List IssueSummary
backlog =
    issue 3 ("agent:ready" ∷ [])
    ∷ issue 4 ("agent:ready" ∷ "priority:p1" ∷ [])
    ∷ issue 5 ("agent:ready" ∷ "agent:review" ∷ [])
    ∷ []

candidate_of-IsReady_test :
    ((candidate_of backlog default_selection_policy (issue 3 ("agent:ready" ∷ []))).eligible ≡ true)
    ↔ IsReady backlog default_selection_policy (issue 3 ("agent:ready" ∷ []))
candidate_of-IsReady_test =
    candidate_of-IsReady backlog default_selection_policy (issue 3 ("agent:ready" ∷ []))

select_next_issue_exact_example :
    ((i : IssueSummary)
      → (select_next_issue backlog default_selection_policy).selected ≡ some i
      → IsOffered backlog default_selection_policy i
        × ((j : IssueSummary)
            → IsOffered backlog default_selection_policy j
            → (j ≡ i) ⊎ Precedes default_selection_policy i j))
    × (((select_next_issue backlog default_selection_policy).selected ≡ none)
        ↔ ((j : IssueSummary) → ¬ IsOffered backlog default_selection_policy j))
select_next_issue_exact_example = select_next_issue_exact backlog default_selection_policy
