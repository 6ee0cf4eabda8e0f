-- ===== src/Detect.antt =====
-- tooling/loop/src/detect.ts: what a diff removes, destroys or upgrades.
pub mod Changes
use Prim.Native.Char.{code}
use Prim.Native.String
use Prim.Native.String.{compare}
use Prim.Native.Nat.{Ordering}
use text.Mathlib.Text.{is_le}
use space_elysiajs_orpc.Prelude.{
  ℕ, zero, suc, ◌+◌, ◌*◌, ◌-◌, String, Bool, true, false, Option, none, some, List, [], ◌∷◌, ◌++◌,
  map, eqb, leb, ltb, if◌then◌else◌, ◌&&◌, ◌||◌, not, filter, includes, ◌==◌,
}
use space_elysiajs_orpc.Prelude.Assoc.{get, set, has}
use space_elysiajs_orpc.Prelude.Sorting.{sort}
use space_elysiajs_orpc.Diff.{DiffFile}
use space_elysiajs_orpc.Recurrence.{to_set}
use space_elysiajs_orpc.Regexp.{
  Re, empty, start, end, word_boundary, group, seq, alt, star, reluctant, test, exec, group_of,
}
use space_elysiajs_orpc.Regexp.Classes.{
  word, digit, space, is_space, anything, in_set, not_in_set, literal, literal_i, plus, maybe,
  all_of, any_of,
}

-- `DESTRUCTIVE_SQL`, each with its `source`.
abbrev words_i : String → String → Re
words_i first second =
    all_of (word_boundary ∷ literal_i first ∷ plus space ∷ literal_i second ∷ word_boundary ∷ [])

abbrev altering : String → Re
altering what = all_of (
    word_boundary
    ∷ literal_i "alter"
    ∷ plus space
    ∷ literal_i "table"
    ∷ word_boundary
    ∷ reluctant anything
    ∷ word_boundary
    ∷ literal_i "drop"
    ∷ plus space
    ∷ literal_i what
    ∷ word_boundary
    ∷ [])

abbrev destructive_sql : List (Re × String)
destructive_sql =
    (words_i "drop" "table", "\\bdrop\\s+table\\b")
    ∷ (words_i "drop" "schema", "\\bdrop\\s+schema\\b")
    ∷ (words_i "drop" "database", "\\bdrop\\s+database\\b")
    ∷ (all_of (word_boundary ∷ literal_i "truncate" ∷ word_boundary ∷ []), "\\btruncate\\b")
    ∷ (altering "column", "\\balter\\s+table\\b[\\s\\S]*?\\bdrop\\s+column\\b")
    ∷ (altering "constraint", "\\balter\\s+table\\b[\\s\\S]*?\\bdrop\\s+constraint\\b")
    ∷ []

pub record DestructiveStatement : Type 0 where
  pub line : String
  pub pattern_source : String

-- `text.trim()`
trim_start : String → String
trim_start String.[] = String.[]
trim_start (String.◌∷◌ c s) =
    let rest = trim_start s in if is_space (code c) then rest else String.◌∷◌ c s

trim_end : String → String
trim_end String.[] = String.[]
trim_end (String.◌∷◌ c s) =
    let rest = trim_end s in
    if is_space (code c) && rest == "" then String.[] else String.◌∷◌ c rest

unfoldable pub trim : String → String
unfolding trim_start trim_end
trim s = trim_end (trim_start s)

-- The inner loop: the first pattern that the line matches.
first_match : String → List (Re × String) → Option String
first_match line [] = none
first_match line ((pattern', source) ∷ rest) =
    let later = first_match line rest in if test pattern' line then some source else later

unfoldable pub find_destructive_sql : List String → List DestructiveStatement
unfolding first_match trim
find_destructive_sql [] = []
find_destructive_sql (line ∷ lines) = elim (first_match line destructive_sql) [
  | none ↦ find_destructive_sql lines
  | some source ↦ record { line = trim line; pattern_source = source } ∷ find_destructive_sql lines
]

-- `[A-Za-z_$][\w$]*`
abbrev identifier : Re
identifier =
    seq (in_set "ABCDEFGHIJKLMNOPQRSTUVWXYZabcdefghijklmnopqrstuvwxyz_$")
      (star (alt word (in_set "$")))

-- `EXPORT_PATTERNS`
abbrev export_declaration : Re
export_declaration = all_of (
    start
    ∷ star space
    ∷ literal "export"
    ∷ plus space
    ∷ maybe (seq (literal "declare") (plus space))
    ∷ maybe (seq (literal "async") (plus space))
    ∷ any_of (literal "const") (
        literal "let"
        ∷ literal "var"
        ∷ literal "function"
        ∷ literal "class"
        ∷ literal "interface"
        ∷ literal "type"
        ∷ literal "enum"
        ∷ [])
    ∷ plus space
    ∷ group 1 identifier
    ∷ [])

abbrev export_default : Re
export_default = all_of (
    start
    ∷ star space
    ∷ literal "export"
    ∷ plus space
    ∷ literal "default"
    ∷ plus space
    ∷ maybe (seq (literal "function") (plus space))
    ∷ maybe (group 1 identifier)
    ∷ [])

-- `/export\s*(?:type\s*)?\{([^}]*)\}/`
abbrev brace_list : Re
brace_list = all_of (
    literal "export"
    ∷ star space
    ∷ maybe (seq (literal "type") (star space))
    ∷ literal "{"
    ∷ group 1 (star (not_in_set "}"))
    ∷ literal "}"
    ∷ [])

-- A member of an export list over several lines.
abbrev list_member : Re
list_member = all_of (
    start
    ∷ star space
    ∷ maybe (seq (literal "type") (plus space))
    ∷ identifier
    ∷ star space
    ∷ maybe (all_of (literal "as" ∷ plus space ∷ identifier ∷ []))
    ∷ star space
    ∷ literal ","
    ∷ star space
    ∷ end
    ∷ [])

abbrev entry_name : Re
entry_name = all_of (
    maybe (seq (literal "type") (plus space))
    ∷ group 1 identifier
    ∷ maybe (all_of (plus space ∷ literal "as" ∷ plus space ∷ group 2 identifier ∷ []))
    ∷ [])

-- `text.split(',')`
split_commas : String → String → List String
split_commas current String.[] = current ∷ []
split_commas current (String.◌∷◌ c s) =
    let closed = current ∷ split_commas "" s in
    let longer = split_commas (String.◌++◌ current (String.◌∷◌ c String.[])) s in
    if eqb (code c) b',' then closed else longer

-- `a ?? b`
abbrev or_that {ℓ} : {A : Type ℓ} → Option A → Option A → Option A
or_that none b = b
or_that (some a) b = some a

entry_names : List String → List String
unfolding trim
entry_names [] = []
entry_names (entry ∷ rest) =
    let name = exec entry_name (trim entry) in
    elim (or_that (group_of 2 name) (group_of 1 name)) [
      | none ↦ entry_names rest
      | some exported ↦ if exported == "type" then entry_names rest else exported ∷ entry_names rest
    ]

-- The body of `export { … }`, or the whole line where it is a member of a longer list.
listed_body : String → Option String
listed_body line =
    or_that (group_of 1 (exec brace_list line)) (if test list_member line then some line else none)

-- The names of one line.
exported_by : String → List String
unfolding entry_names split_commas listed_body
exported_by line =
    elim (or_that (group_of 1 (exec export_declaration line))
      (group_of 1 (exec export_default line))) [
        | some name ↦ name ∷ []
        | none ↦ elim (listed_body line) [
          | none ↦ []
          | some body ↦ entry_names (split_commas "" body)
        ]
      ]

names_of_lines : List String → List String
unfolding exported_by
names_of_lines [] = []
names_of_lines (line ∷ lines) = exported_by line ++ names_of_lines lines

unfoldable pub extract_exported_names : List String → List String
unfolding names_of_lines
extract_exported_names lines = to_set [] (names_of_lines lines)

-- The default order of `sort()`, on names that hold ASCII characters only.
abbrev text_le : String → String → Bool
text_le a b = is_le (compare a b)

unfoldable pub removed_exports : DiffFile → List String
unfolding extract_exported_names
removed_exports file = sort text_le (
    filter (λ name. not (includes name (extract_exported_names file.added_lines)))
      (extract_exported_names file.removed_lines))
