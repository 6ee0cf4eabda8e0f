-- ===== src/Glob/Paths.antt =====
-- Whole paths: the matcher decides what a pattern stands for.
use space_elysiajs_orpc.Prelude.{
  String, Bool, true, List, [], ◌∷◌, ◌≡◌, refl, ◌≢◌, ◌↔◌, inl, inr, arith, Bool-cases, eq_iff, ◌==◌,
  mem-of_any, any-of_mem, Memᴰ, and_iff, ne_of_str_ne, subst, sym,
}
use space_elysiajs_orpc.Glob.{
  segment_to_regexp, some_suffix, head_then, match_segments, normalise, matches_glob,
  matches_any_glob,
}
use space_elysiajs_orpc.Glob.Segments.{Reads, test_iff}

-- What a list of pattern segments stands for: `**` for any number of segments, none included, and
-- another segment for one that its expression reads.
pub data Matches : List String → List String → Type 0 where
  root : Matches [] []
  none_more : {rest path : List String} → Matches rest path → Matches ("**" ∷ rest) path
  one_more :
      {rest path : List String} {segment : String}
      → Matches ("**" ∷ rest) path
      → Matches ("**" ∷ rest) (segment ∷ path)
  segment :
      {head here : String} {rest path : List String}
      → head ≢ "**"
      → Reads (segment_to_regexp head) here
      → Matches rest path
      → Matches (head ∷ rest) (here ∷ path)

some_suffix_sound :
    (rest path : List String)
    → ((p : List String) → match_segments rest p ≡ true → Matches rest p)
    → some_suffix (match_segments rest) path ≡ true
    → Matches ("**" ∷ rest) path
unfolding some_suffix
some_suffix_sound rest [] k h = none_more (k [] h)
some_suffix_sound rest (s ∷ path) k h = elim (Bool-cases (match_segments rest (s ∷ path))) [
  | inl e ↦ none_more (k (s ∷ path) e)
  | inr e ↦ one_more (some_suffix_sound rest path k (ground arith))
]

head_then_sound :
    (head : String) (rest path : List String)
    → head ≢ "**"
    → ((p : List String) → match_segments rest p ≡ true → Matches rest p)
    → head_then head (match_segments rest) path ≡ true
    → Matches (head ∷ rest) path
unfolding head_then
head_then_sound head rest [] n k h = cc
head_then_sound head rest (s ∷ path) n k h =
    let (t, m) = (and_iff _ _).0 h in
    segment n ((test_iff (segment_to_regexp head) s).0 t) (k path m)

match_segments_sound : (pat path : List String) → match_segments pat path ≡ true → Matches pat path
unfolding match_segments
match_segments_sound [] [] h = root
match_segments_sound [] (s ∷ path) h = cc
match_segments_sound (head ∷ rest) path h = elim (Bool-cases (head == "**")) [
  | inl e ↦
      subst (λ t. Matches (t ∷ rest) path) (sym ((eq_iff head "**").0 e))
        (some_suffix_sound rest path (λ p k. match_segments_sound rest p k) (rw e at h))
  | inr e ↦
      head_then_sound head rest path (ne_of_str_ne head "**" e)
        (λ p k. match_segments_sound rest p k) (rw e at h)
]

some_suffix_here :
    (k : List String → Bool) (path : List String) → k path ≡ true → some_suffix k path ≡ true
unfolding some_suffix
some_suffix_here k [] h = h
some_suffix_here k (s ∷ path) h = rw h refl

some_suffix_more :
    (k : List String → Bool) (s : String) (path : List String)
    → some_suffix k path ≡ true
    → some_suffix k (s ∷ path) ≡ true
unfolding some_suffix
some_suffix_more k s path h = ground arith

head_then_complete :
    (head here : String) (k : List String → Bool) (path : List String)
    → Reads (segment_to_regexp head) here
    → k path ≡ true
    → head_then head k (here ∷ path) ≡ true
unfolding head_then
head_then_complete head here k path t m = (and_iff _ _).1 ((test_iff _ here).1 t, m)

match_segments_complete :
    {pat path : List String} → Matches pat path → match_segments pat path ≡ true
unfolding match_segments
match_segments_complete root = refl
match_segments_complete (none_more {rest = r} {path = p} m) =
    some_suffix_here (match_segments r) p (match_segments_complete m)
match_segments_complete (one_more {rest = r} {path = p} {segment = s} m) =
    some_suffix_more (match_segments r) s p (match_segments_complete m)
match_segments_complete (segment {head = h} {here = s} {rest = r} {path = p} n t m) = ground (
  arith,
  eq_iff h "**",
  head_then_complete h s (match_segments r) p t (match_segments_complete m),
)

-- A path matches one of the patterns exactly when the segments of some listed pattern stand for the
-- path's segments, empty segments and a leading `./` left out on both sides.
pub matches_any_glob_exact :
    (patterns : List String) (path : String)
    → (matches_any_glob patterns path ≡ true)
      ↔ ((p : String) × Memᴰ p patterns × Matches (normalise p) (normalise path))
unfolding matches_any_glob matches_glob
matches_any_glob_exact patterns path = (
  λ h. let (p, m, e) = mem-of_any _ patterns h in (p, m, match_segments_sound _ _ e),
  λ (p, m, r). any-of_mem _ p patterns m (match_segments_complete r),
)
