-- ===== src/Dependencies.antt =====
-- tooling/loop/src/dependencies.ts: the dependencies that an issue's body declares.
pub mod Declared
use space_elysiajs_orpc.Prelude.{
  ℕ, String, Bool, true, false, Option, none, some, List, [], ◌∷◌, ◌++◌, leb, ltb, eqb, any, not,
  is_empty, ◌&&◌, ◌||◌, ◌==◌, if◌then◌else◌, number_of,
}
use space_elysiajs_orpc.Prelude.Sorting.{sort}
use space_elysiajs_orpc.Detect.{trim}
use space_elysiajs_orpc.Diff.{split_lines}
use space_elysiajs_orpc.Regexp.{
  Re, start, end, word_boundary, group, seq, star, test, exec, match_all, group_of, Place,
}
use space_elysiajs_orpc.Regexp.Classes.{
  space, dot, digit, in_set, literal, literal_i, plus, maybe, all_of,
}

-- `/^\\s*(?:#{1,6}\\s*)?depends\\s+on\\s*:?\\s*(.*)$/i`
abbrev up_to : ℕ → Re → Re
up_to ℕ.zero r = r
up_to (ℕ.suc n) r = seq r (maybe (up_to n r))

abbrev heading : Re
heading = all_of (
    start
    ∷ star space
    ∷ maybe (seq (up_to 5 (literal "#")) (star space))
    ∷ literal_i "depends"
    ∷ plus space
    ∷ literal_i "on"
    ∷ star space
    ∷ maybe (literal ":")
    ∷ star space
    ∷ group 1 (star dot)
    ∷ end
    ∷ [])

-- `/^\\s*[-*]\\s+(.*)$/`
abbrev list_item : Re
list_item = all_of (start ∷ star space ∷ in_set "-*" ∷ plus space ∷ group 1 (star dot) ∷ end ∷ [])

-- `/#(\\d+)\\b/g`
abbrev issue_reference : Re
issue_reference = all_of (literal "#" ∷ group 1 (plus digit) ∷ word_boundary ∷ [])

-- `/^none\\.?$/i`
abbrev none_text : Re
none_text = all_of (start ∷ literal_i "none" ∷ maybe (literal ".") ∷ end ∷ [])

abbrev pub contains : ℕ → List ℕ → Bool
contains n = any (eqb n)

-- `into.add(value)`, where the value is above 0.
pub add_reference : List ℕ → ℕ → List ℕ
add_reference into value =
    if ltb 0 value && not (contains value into) then into ++ value ∷ [] else into

pub add_matches : List ℕ → List Place → List ℕ
add_matches into [] = into
add_matches into (m ∷ rest) =
    add_matches
      (elim (group_of 1 (some m)) [
        | none ↦ into
        | some digits ↦ add_reference into (number_of digits)
      ])
      rest

pub collect_references : String → List ℕ → List ℕ
unfolding add_matches add_reference
collect_references text into = add_matches into (match_all issue_reference text)

-- The list under a heading; the first argument is the line before.
pub collect_list : String → List String → List ℕ → List ℕ
collect_list before [] into = into
collect_list before (line ∷ lines) into =
    let item = exec list_item line in
    let onward = collect_list line lines into in
    if trim line == ""
    then (if not (is_empty into) && test list_item before then into else onward)
    else elim (group_of 1 item) [
      | none ↦ into
      | some text ↦ collect_list line lines (collect_references text into)
    ]

-- The variables of `parseDependencyDeclaration`.
pub record Found : Type 0 where
  pub dependencies : List ℕ
  pub block_found : Bool
  pub explicit_none : Bool

-- A line, with the lines below it.
pub scan_line : String → List String → Found → Found
unfolding collect_references collect_list
scan_line line below f = elim (group_of 1 (exec heading line)) [
  | none ↦ f
  | some text ↦ record {
    dependencies = collect_list line below (collect_references text f.dependencies);
    block_found = true;
    explicit_none = f.explicit_none || test none_text (trim text);
  }
]

pub scan : List String → Found → Found
scan [] f = f
scan (line ∷ below) f = scan below (scan_line line below f)

pub record DependencyDeclaration : Type 0 where
  pub declared : Bool
  pub dependencies : List ℕ

pub declaration_of : Found → DependencyDeclaration
declaration_of f = record {
  declared = f.block_found && (not (is_empty f.dependencies) || f.explicit_none);
  dependencies = sort leb f.dependencies;
}

-- `null` and `undefined` are `none`.
unfoldable pub parse_dependency_declaration : Option String → DependencyDeclaration
unfolding scan scan_line declaration_of
parse_dependency_declaration none = record { declared = false; dependencies = [] }
parse_dependency_declaration (some body) = declaration_of (
    scan (split_lines body)
      (record { dependencies = []; block_found = false; explicit_none = false }))

unfoldable pub parse_issue_dependencies : Option String → List ℕ
unfolding parse_dependency_declaration
parse_issue_dependencies body = (parse_dependency_declaration body).dependencies
