-- ===== src/Diff.antt =====
-- tooling/loop/src/diff.ts: a pull request's diff, and how a unified diff is read.
use Prim.Native.Char.{code}
use Prim.Native.String
use space_elysiajs_orpc.Prelude.{
  ℕ, ◌+◌, String, Option, none, some, List, [], ◌∷◌, ◌++◌, eqb, if◌then◌else◌, length, ◌||◌,
}
use space_elysiajs_orpc.Regexp.{Re, start, end, group, seq, reluctant, exec, group_of}
use space_elysiajs_orpc.Regexp.Classes.{literal, dot, plus, all_of}
use text.Mathlib.Text.{starts_with}

pub data FileStatus : Type 0 where
  added modified removed renamed : FileStatus

pub record DiffFile : Type 0 where
  pub path : String
  pub status : FileStatus
  pub added_lines : List String
  pub removed_lines : List String

pub record PullRequestDiff : Type 0 where
  pub files : List DiffFile

additions_of : List DiffFile → ℕ
additions_of [] = 0
additions_of (file ∷ files) = length file.added_lines + additions_of files

deletions_of : List DiffFile → ℕ
deletions_of [] = 0
deletions_of (file ∷ files) = length file.removed_lines + deletions_of files

unfoldable pub additions : PullRequestDiff → ℕ
unfolding additions_of
additions diff = additions_of diff.files

unfoldable pub deletions : PullRequestDiff → ℕ
unfolding deletions_of
deletions diff = deletions_of diff.files

-- `/^diff --git a\/(.+?) b\/(.+)$/`
abbrev file_header : Re
file_header = all_of (
    start
    ∷ literal "diff --git a/"
    ∷ group 1 (seq dot (reluctant dot))
    ∷ literal " b/"
    ∷ group 2 (plus dot)
    ∷ end
    ∷ [])

-- `/^rename to (.+)$/`
abbrev rename_to : Re
rename_to = all_of (start ∷ literal "rename to " ∷ group 1 (plus dot) ∷ end ∷ [])

-- `text.split('\n')`
lines_from : String → String → List String
lines_from current String.[] = current ∷ []
lines_from current (String.◌∷◌ c s) =
    let closed = current ∷ lines_from "" s in
    let longer = lines_from (String.◌++◌ current (String.◌∷◌ c String.[])) s in
    if eqb (code c) 10 then closed else longer

unfoldable pub split_lines : String → List String
unfolding lines_from
split_lines text = lines_from "" text

-- `rawLine.slice(1)`
abbrev pub rest_of : String → String
rest_of String.[] = String.[]
rest_of (String.◌∷◌ c s) = s

-- The variables of `parseUnifiedDiff`.
pub record Reading : Type 0 where
  pub files : List DiffFile
  pub current : Option DiffFile

abbrev pub closed : Reading → List DiffFile
closed r = elim r.current [ none ↦ r.files | some file ↦ r.files ++ file ∷ [] ]

-- A line under the header of `file`.
pub read_body : String → DiffFile → DiffFile
read_body line file =
    if starts_with line "new file mode"
    then record file { status = added }
    else if starts_with line "deleted file mode"
    then record file { status = removed }
    else elim (group_of 1 (exec rename_to line)) [
      | some path ↦ record file { status = renamed; path = path }
      | none ↦
          if starts_with line "+++" || starts_with line "---"
          then file
          else if starts_with line "+"
          then record file { added_lines = file.added_lines ++ rest_of line ∷ [] }
          else if starts_with line "-"
          then record file { removed_lines = file.removed_lines ++ rest_of line ∷ [] }
          else file
    ]

pub read_line : Reading → String → Reading
unfolding read_body
read_line r line = elim (group_of 2 (exec file_header line)) [
  | some path ↦ record {
    files = closed r;
    current =
        some (record { path = path; status = modified; added_lines = []; removed_lines = [] });
  }
  | none ↦ elim r.current [
    | none ↦ r
    | some file ↦ record r { current = some (read_body line file) }
  ]
]

pub read_lines : Reading → List String → Reading
read_lines r [] = r
read_lines r (line ∷ lines) = read_lines (read_line r line) lines

unfoldable pub parse_unified_diff : String → PullRequestDiff
unfolding read_lines read_line split_lines
parse_unified_diff text = record {
  files = closed (read_lines (record { files = []; current = none }) (split_lines text));
}
