-- ===== src/Dependencies/Declared.antt =====
-- What a declaration holds.
use space_elysiajs_orpc.Prelude.{
  ℕ, ◌<◌, String, true, false, Option, none, some, List, [], ◌∷◌, Memᴰ, ◌≡◌, ◌≢◌, refl, arith, ltb,
  leb, not, ◌&&◌, is_empty, All, All-append, All-mem, Bool-cases, Option-cases, inl, inr, ◌==◌,
}
use space_elysiajs_orpc.Prelude.Sorting.{sort, mem-of_sort, sort-IsSorted, IsSorted}
use space_elysiajs_orpc.Detect.{trim}
use space_elysiajs_orpc.Diff.{split_lines}
use space_elysiajs_orpc.Regexp.{Place, exec, test, match_all, group_of}
use space_elysiajs_orpc.Dependencies.{
  heading, list_item, issue_reference, contains, add_reference, add_matches, collect_references,
  collect_list, Found, scan_line, scan, DependencyDeclaration, declaration_of,
  parse_dependency_declaration,
}

abbrev Positive : List ℕ → Type 0
Positive = All (λ n. 0 < n)

add_reference-Positive : (into : List ℕ) (n : ℕ) → Positive into → Positive (add_reference into n)
unfolding add_reference
add_reference-Positive into n h = elim (Bool-cases (ltb 0 n && not (contains n into))) [
  | inl e ↦ rw e (All-append (λ n. 0 < n) into (n ∷ []) h (ground arith, tt))
  | inr e ↦ rw e h
]

add_matches-Positive :
    (ms : List Place) (into : List ℕ) → Positive into → Positive (add_matches into ms)
unfolding add_matches
add_matches-Positive [] into h = h
add_matches-Positive (m ∷ ms) into h = elim (Option-cases (group_of 1 (some m))) [
  | inl e ↦ rw (e, add_matches) (add_matches-Positive ms into h)
  | inr (d, e) ↦ rw (e, add_matches) (add_matches-Positive ms _ (add_reference-Positive into _ h))
]

collect_references-Positive :
    (text : String) (into : List ℕ) → Positive into → Positive (collect_references text into)
unfolding collect_references
collect_references-Positive text into h =
    add_matches-Positive (match_all issue_reference text) into h

collect_list-Positive :
    (lines : List String) (before : String) (into : List ℕ)
    → Positive into
    → Positive (collect_list before lines into)
unfolding collect_list
collect_list-Positive [] before into h = h
collect_list-Positive (line ∷ lines) before into h = elim (Bool-cases (trim line == "")) [
  | inl e ↦ elim (Bool-cases (not (is_empty into) && test list_item before)) [
    | inl s ↦ rw (e, s) h
    | inr s ↦ rw (e, s) (collect_list-Positive lines line into h)
  ]
  | inr e ↦ elim (Option-cases (group_of 1 (exec list_item line))) [
    | inl n ↦ rw (e, n) h
    | inr (t, n) ↦
        rw (e, n) (collect_list-Positive lines line _ (collect_references-Positive t into h))
  ]
]

-- References are collected only under a heading.
record IsFound (f : Found) : Type 0 where
  positive : Positive f.dependencies
  headed : f.block_found ≡ false → (f.dependencies ≡ []) × (f.explicit_none ≡ false)

scan_line-IsFound :
    (line : String) (below : List String) (f : Found) → IsFound f → IsFound (scan_line line below f)
unfolding scan_line
scan_line-IsFound line below f h = elim (Option-cases (group_of 1 (exec heading line))) [
  | inl e ↦ rw (e, scan_line) h
  | inr (t, e) ↦
      rw (e, scan_line)
        (record {
          positive =
              collect_list-Positive below line _
                (collect_references-Positive t f.dependencies h.positive);
          headed = λ q. cc;
        })
]

scan-IsFound : (lines : List String) (f : Found) → IsFound f → IsFound (scan lines f)
unfolding scan
scan-IsFound [] f h = h
scan-IsFound (line ∷ below) f h =
    scan-IsFound below (scan_line line below f) (scan_line-IsFound line below f h)

is_empty-sort : (l : List ℕ) → sort leb l ≢ [] → is_empty l ≡ false
unfolding sort
is_empty-sort [] h = absurd (h refl)
is_empty-sort (x ∷ l) h = refl

All-of_mem : (l : List ℕ) → ((n : ℕ) → Memᴰ n l → 0 < n) → Positive l
All-of_mem [] h = tt
All-of_mem (x ∷ l) h = (h x (Memᴰ.head refl), All-of_mem l (λ n m. h n (Memᴰ.tail m)))

leb_trans : (a b c : ℕ) → leb a b ≡ true → leb b c ≡ true → leb a c ≡ true
leb_trans a b c h k = ground arith

leb_total : (a b : ℕ) → leb a b ≡ false → leb b a ≡ true
leb_total a b h = ground arith

abbrev IsAnswer : DependencyDeclaration → Type 0
IsAnswer d =
    Positive d.dependencies
    × IsSorted leb d.dependencies
    × (d.dependencies ≢ [] → d.declared ≡ true)

declaration_of-IsAnswer : (f : Found) → IsFound f → IsAnswer (declaration_of f)
unfolding declaration_of
declaration_of-IsAnswer f h = (
  All-of_mem (sort leb f.dependencies) (λ n m.
      All-mem (λ k. 0 < k) n f.dependencies h.positive (mem-of_sort leb n f.dependencies m)),
  sort-IsSorted leb leb_total leb_trans f.dependencies,
  λ some_found. ground (arith, is_empty-sort f.dependencies some_found, h.headed),
)

-- Whatever a body says, the dependencies read from it are issue numbers above 0 in ascending order,
-- and where there is one the question counts as answered: a fallback never replaces what was read.
pub parse_dependency_declaration_sound :
    (body : Option String)
    → let d = parse_dependency_declaration body in
      All (λ n. 0 < n) d.dependencies
      × IsSorted leb d.dependencies
      × (d.dependencies ≢ [] → d.declared ≡ true)
unfolding parse_dependency_declaration
parse_dependency_declaration_sound none = (tt, tt, λ h. absurd (h refl))
parse_dependency_declaration_sound (some body) = declaration_of-IsAnswer _ (
    scan-IsFound (split_lines body)
      (record { dependencies = []; block_found = false; explicit_none = false })
      (record { positive = tt; headed = λ q. (refl, refl) }))
