-- ===== src/Detect/Changes.antt =====
-- The dependency edits of a `package.json` diff (`dependencyChanges` in tooling/loop/src/detect.ts).
use space_elysiajs_orpc.Prelude.{
  String, Bool, false, Option, none, some, List, [], ◌∷◌, ◌++◌, ltb, if◌then◌else◌, ◌&&◌, not, ◌==◌,
  number_of,
}
use space_elysiajs_orpc.Prelude.Assoc.{get, set, has}
use space_elysiajs_orpc.Prelude.Sorting.{sort}
use space_elysiajs_orpc.Diff.{DiffFile}
use space_elysiajs_orpc.Regexp.{Re, start, end, group, seq, alt, star, test, exec, group_of, Place}
use space_elysiajs_orpc.Regexp.Classes.{
  word, digit, space, in_set, not_in_set, literal, literal_i, plus, maybe, all_of, any_of,
}

pub data ChangeKind : Type 0 where
  added removed upgraded downgraded : ChangeKind

pub record DependencyChange : Type 0 where
  pub name : String
  pub from : Option String
  pub to : Option String
  pub kind : ChangeKind
  pub major : Bool

-- `/^\\s*"([^"]+)"\\s*:\\s*"([^"]+)"\\s*,?\\s*$/`
abbrev dependency_line : Re
dependency_line = all_of (
    start
    ∷ star space
    ∷ literal "\""
    ∷ group 1 (plus (not_in_set "\""))
    ∷ literal "\""
    ∷ star space
    ∷ literal ":"
    ∷ star space
    ∷ literal "\""
    ∷ group 2 (plus (not_in_set "\""))
    ∷ literal "\""
    ∷ star space
    ∷ maybe (literal ",")
    ∷ star space
    ∷ end
    ∷ [])

-- `[a-z-]` under the flag `i`
abbrev name_char : Re
name_char = in_set "abcdefghijklmnopqrstuvwxyzABCDEFGHIJKLMNOPQRSTUVWXYZ-"

-- The four alternatives of `DEPENDENCY_VALUE`.
abbrev dependency_protocol : Re
dependency_protocol = any_of (literal_i "workspace:") (
    literal_i "npm:"
    ∷ literal_i "file:"
    ∷ literal_i "link:"
    ∷ literal_i "portal:"
    ∷ literal_i "patch:"
    ∷ literal_i "git+"
    ∷ literal_i "github:"
    ∷ all_of (literal_i "http" ∷ maybe (literal_i "s") ∷ literal ":" ∷ [])
    ∷ all_of (plus name_char ∷ literal "/" ∷ plus name_char ∷ literal "#" ∷ [])
    ∷ [])

abbrev dependency_range : Re
dependency_range = all_of (
    star (in_set "^~>=<vV ")
    ∷ plus digit
    ∷ star (seq (literal ".") (plus digit))
    ∷ maybe (seq (in_set "-+.") (plus (alt word (in_set ".-"))))
    ∷ end
    ∷ [])

abbrev dependency_value : Re
dependency_value = any_of (seq start dependency_protocol) (
    seq start dependency_range
    ∷ all_of (start ∷ literal "*" ∷ end ∷ [])
    ∷ all_of (start ∷ literal_i "latest" ∷ end ∷ [])
    ∷ [])

-- A line's dependency: the two captures, if the value is a specifier.
entry_of : Option Place → Option (String × String)
entry_of m = elim (group_of 1 m) [
  | none ↦ none
  | some name ↦ elim (group_of 2 m) [
    | none ↦ none
    | some value ↦ if test dependency_value value then some (name, value) else none
  ]
]

read_entries : List (String × String) → List String → List (String × String)
unfolding entry_of
read_entries m [] = m
read_entries m (line ∷ lines) =
    read_entries
      (elim (entry_of (exec dependency_line line)) [
        | none ↦ m
        | some (name, value) ↦ set m name value
      ])
      lines

-- `/(\\d+)\\./`
leading_major : String → Option String
leading_major range = group_of 1 (exec (seq (group 1 (plus digit)) (literal ".")) range)

abbrev differ : Option String → Option String → Bool
differ (some a) (some b) = not (a == b)
differ _ _ = false

abbrev is_below : Option String → Option String → Bool
is_below (some a) (some b) = ltb (number_of a) (number_of b)
is_below _ _ = false

abbrev equals : Option String → String → Bool
equals none to = false
equals (some from) to = from == to

change_kind : Option String → Bool → Option String → Option String → ChangeKind
change_kind none major to_major from_major = added
change_kind (some from) major to_major from_major =
    if major && is_below to_major from_major then downgraded else upgraded

abbrev major_of : Option String → Option String
major_of none = none
major_of (some range) = leading_major range

pub change_of : String → Option String → String → DependencyChange
unfolding leading_major change_kind
change_of name from to =
    let from_major = major_of from in
    let to_major = leading_major to in
    let major = differ from_major to_major in
    record {
      name = name;
      from = from;
      to = some to;
      kind = change_kind from major to_major from_major;
      major = major;
    }

-- The loop over `after`, and the one over `before`.
pub edited : List (String × String) → List (String × String) → List DependencyChange
edited before [] = []
edited before ((name, to) ∷ rest) =
    let from = get before name in
    let changes = edited before rest in
    if equals from to then changes else change_of name from to ∷ changes

pub dropped : List (String × String) → List (String × String) → List DependencyChange
dropped after [] = []
dropped after ((name, from) ∷ rest) =
    let changes = dropped after rest in
    if has after name
    then changes
    else record { name = name; from = some from; to = none; kind = removed; major = false }
      ∷ changes

-- `a.localeCompare(b) <= 0` is the parameter.
unfoldable pub dependency_changes : (String → String → Bool) → DiffFile → List DependencyChange
unfolding read_entries edited dropped change_of
dependency_changes locale_le file =
    let before = read_entries [] file.removed_lines in
    let after = read_entries [] file.added_lines in
    if test (seq (literal "package.json") end) file.path
    then sort (λ (a : DependencyChange) (b : DependencyChange). locale_le a.name b.name)
        (edited before after ++ dropped after before)
    else []
