-- ===== src/Eligibility.antt =====
-- tooling/loop/src/eligibility.ts: which issue is worked on next. The reasons are constructors that
-- hold the values which the source puts into the text.
pub mod Readiness
pub mod Selection
use space_elysiajs_orpc.Prelude.{
  ℕ, zero, suc, ◌+◌, String, Bool, true, false, Option, none, some, List, [], ◌∷◌, ◌++◌, map, eqb,
  ltb, leb, any, not, is_empty, ◌&&◌, ◌||◌, if◌then◌else◌, includes, filter, find,
}
use space_elysiajs_orpc.Prelude.Sorting.{sort}
use space_elysiajs_orpc.Dependencies.{contains, DependencyDeclaration, parse_dependency_declaration}

pub data IssueState : Type 0 where
  open_issue closed_issue : IssueState

abbrev pub is_open : IssueState → Bool
is_open open_issue = true
is_open closed_issue = false

pub record IssueSummary : Type 0 where
  pub number : ℕ
  pub title : String
  pub state : IssueState
  pub labels : List String
  pub body : Option String

-- `detail` is told by the other two: found or not, and its state.
pub record DependencyState : Type 0 where
  pub number : ℕ
  pub satisfied : Bool
  pub found : Option IssueState

pub data Reason : Type 0 where
  missing_label : String → Reason
  carries : String → Reason
  already_blocked : Reason
  unmet : List ℕ → Reason

pub record Candidate : Type 0 where
  pub issue : IssueSummary
  pub eligible : Bool
  pub reasons : List Reason
  pub dependencies : List DependencyState

-- The optional fields: `fallbackDependencies[n] ?? []` is a function, and a list that is left out is
-- empty, but for the priorities, which default to those below.
pub record SelectionPolicy : Type 0 where
  pub required_label : String
  pub excluded_labels : List String
  pub fallback_dependencies : ℕ → List ℕ
  pub priority_labels : List String
  pub skip : List ℕ

abbrev pub default_priority_labels : List String
default_priority_labels = "priority:p0" ∷ "priority:p1" ∷ "priority:p2" ∷ "priority:p3" ∷ []

abbrev pub default_selection_policy : SelectionPolicy
default_selection_policy = record {
  required_label = "agent:ready";
  excluded_labels = "agent:in-progress" ∷ "agent:review" ∷ "agent:blocked" ∷ [];
  fallback_dependencies = λ _. [];
  priority_labels = default_priority_labels;
  skip = [];
}

-- The loop returns the index of the first label carried, and past the end the number of labels.
unfoldable pub priority_rank : List String → List String → ℕ
priority_rank labels [] = 0
priority_rank labels (label ∷ rest) =
    let later = priority_rank labels rest in if includes label labels then 0 else suc later

-- `byNumber.get(number)`: of two issues with one number the later one is in the map.
pub by_number : List IssueSummary → ℕ → Option IssueSummary
by_number [] n = none
by_number (issue ∷ issues) n = elim (by_number issues n) [
  | some later ↦ some later
  | none ↦ if eqb issue.number n then some issue else none
]

pub dependency_state : List IssueSummary → ℕ → DependencyState
dependency_state issues n = elim (by_number issues n) [
  | none ↦ record { number = n; satisfied = false; found = none }
  | some dependency ↦ record {
    number = n;
    satisfied = not (is_open dependency.state);
    found = some dependency.state;
  }
]

-- The dependencies that count for an issue.
pub effective_dependencies : SelectionPolicy → IssueSummary → List ℕ
effective_dependencies policy issue =
    let declaration = parse_dependency_declaration issue.body in
    if declaration.declared
    then declaration.dependencies
    else policy.fallback_dependencies issue.number

pub excluded_reasons : List String → List String → List Reason
excluded_reasons labels [] = []
excluded_reasons labels (excluded ∷ rest) =
    let later = excluded_reasons labels rest in
    if includes excluded labels then carries excluded ∷ later else later

pub candidate_of : List IssueSummary → SelectionPolicy → IssueSummary → Candidate
unfolding dependency_state effective_dependencies excluded_reasons
candidate_of issues policy issue =
    let dependencies = map (dependency_state issues) (effective_dependencies policy issue) in
    let unmet_ones = filter (λ (d : DependencyState). not d.satisfied) dependencies in
    let reasons =
      (if includes policy.required_label issue.labels
        then []
        else missing_label policy.required_label ∷ [])
      ++ (excluded_reasons issue.labels policy.excluded_labels
          ++ ((if contains issue.number policy.skip then already_blocked ∷ [] else [])
              ++ (if is_empty unmet_ones
                  then []
                  else unmet (map (λ (d : DependencyState). d.number) unmet_ones) ∷ []))) in
    record {
      issue = issue;
      eligible = is_empty reasons;
      reasons = reasons;
      dependencies = dependencies;
    }

-- The comparison of the sort: not above 0.
abbrev pub comes_first : SelectionPolicy → Candidate → Candidate → Bool
comes_first policy a b =
    let p = priority_rank a.issue.labels policy.priority_labels in
    let q = priority_rank b.issue.labels policy.priority_labels in
    if eqb p q then leb a.issue.number b.issue.number else ltb p q

unfoldable pub evaluate_candidates : List IssueSummary → SelectionPolicy → List Candidate
unfolding candidate_of
evaluate_candidates issues policy =
    sort (comes_first policy)
      (map (candidate_of issues policy) (filter (λ (i : IssueSummary). is_open i.state) issues))

pub data StopReason : Type 0 where
  no_open_issues : StopReason
  none_carries : String → StopReason
  all_held : StopReason

pub record SelectionResult : Type 0 where
  pub selected : Option IssueSummary
  pub candidates : List Candidate
  pub stop_reason : Option StopReason

unfoldable pub select_next_issue : List IssueSummary → SelectionPolicy → SelectionResult
select_next_issue issues policy =
    let candidates = evaluate_candidates issues policy in
    let ready =
      filter (λ (c : Candidate). includes policy.required_label c.issue.labels) candidates in
    elim (find (λ (c : Candidate). c.eligible) candidates) [
      | some c ↦ record { selected = some c.issue; candidates = candidates; stop_reason = none }
      | none ↦ record {
        selected = none;
        candidates = candidates;
        stop_reason = some (
            if is_empty candidates
            then no_open_issues
            else if is_empty ready
            then none_carries policy.required_label
            else all_held);
      }
    ]
