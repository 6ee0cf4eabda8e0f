-- ===== src/Aggregate/Dedupe.antt =====
-- Collapsing the findings that two reviewers both raised.
use space_elysiajs_orpc.Prelude.{
  ◌≤◌, String, some, List, [], ◌∷◌, map, Memᴰ, ◌≡◌, refl, ap, arith, ◌⊎◌, inl, inr, Bool-cases,
  Option-cases, Bool-ext, any-of_mem, mem-of_any, All, Distinct, subst, eq_iff, ◌==◌,
}
use space_elysiajs_orpc.Prelude.Assoc.{
  get, values, keys, get-set, mem-values-set, mem-values_of_get, Distinct-keys-set, All-set,
  get-All,
}
use space_elysiajs_orpc.Policy.{Severity, severity_order}
use space_elysiajs_orpc.Policy.Order.{is_at_least_severity_iff}
use space_elysiajs_orpc.Review.{Finding}
use space_elysiajs_orpc.Review.Merging.{any_blocking}
use space_elysiajs_orpc.Aggregate.Spot.{spot, HasPlainPath, Apart, Apart-of_keys, spot_of_key}
use space_elysiajs_orpc.Aggregate.{key, replaces, dedupe_step, dedupe_from, dedupe}

module _ (lower : String → String) where
  -- Each finding stands under its own key.
  abbrev IsKeyed : List (String × Finding) → Type 0
  IsKeyed = All (λ e. key lower e.1 ≡ e.0)

  -- What the map holds under a key is at least as severe as the given finding.
  abbrev Covers : List (String × Finding) → Finding → Type 0
  Covers m f =
      (g : Finding) × (get m (key lower f) ≡ some g)
      × (severity_order f.severity ≤ severity_order g.severity)

  dedupe_step-Covers_self :
      (m : List (String × Finding)) (f : Finding) → Covers (dedupe_step lower m f) f
  unfolding dedupe_step
  dedupe_step-Covers_self m f = elim (Bool-cases (replaces lower f (get m (key lower f)))) [
    | inl e ↦ (f, rw (e, get-set) (ground (arith, eq_iff (key lower f) (key lower f))), omega arith)
    | inr e ↦ elim (Option-cases (get m (key lower f))) [
      | inl n ↦ absurd (ground arith)
      | inr (g, n) ↦ (g, rw e n, ground arith)
    ]
  ]

  dedupe_step-Covers :
      (m : List (String × Finding)) (f h : Finding) → Covers m h → Covers (dedupe_step lower m f) h
  unfolding dedupe_step
  dedupe_step-Covers m f h (g, e, le) = elim (Bool-cases (replaces lower f (get m (key lower f)))) [
    | inr n ↦ (g, rw n e, le)
    | inl y ↦ elim (Bool-cases (key lower f == key lower h)) [
      | inl q ↦ (
        f,
        rw (y, get-set, q) refl,
        ground (arith, eq_iff (key lower f) (key lower h), ap (get m)),
      )
      | inr q ↦ (g, rw (y, get-set, q) e, le)
    ]
  ]

  dedupe_from-Covers_old :
      (l : List Finding) (m : List (String × Finding)) (h : Finding)
      → Covers m h
      → Covers (dedupe_from lower m l) h
  unfolding dedupe_from
  dedupe_from-Covers_old [] m h c = c
  dedupe_from-Covers_old (f ∷ l) m h c =
      dedupe_from-Covers_old l (dedupe_step lower m f) h (dedupe_step-Covers m f h c)

  dedupe_from-Covers :
      (l : List Finding) (m : List (String × Finding)) (h : Finding)
      → Memᴰ h l
      → Covers (dedupe_from lower m l) h
  unfolding dedupe_from
  dedupe_from-Covers [] m h c = elim c [ ]
  dedupe_from-Covers (f ∷ l) m h (Memᴰ.head q) =
      rw q (dedupe_from-Covers_old l (dedupe_step lower m f) f (dedupe_step-Covers_self m f))
  dedupe_from-Covers (f ∷ l) m h (Memᴰ.tail c) = dedupe_from-Covers l (dedupe_step lower m f) h c

  dedupe_from_mem :
      (l : List Finding) (m : List (String × Finding)) (x : Finding)
      → Memᴰ x (values (dedupe_from lower m l))
      → Memᴰ x (values m) ⊎ Memᴰ x l
  unfolding dedupe_from dedupe_step
  dedupe_from_mem [] m x h = inl h
  dedupe_from_mem (f ∷ l) m x h = elim (dedupe_from_mem l (dedupe_step lower m f) x h) [
    | inr t ↦ inr (Memᴰ.tail t)
    | inl a ↦ elim (Bool-cases (replaces lower f (get m (key lower f)))) [
      | inl e ↦ elim (mem-values-set m (key lower f) f x (rw e at a)) [
        | inl b ↦ inl b
        | inr q ↦ inr (Memᴰ.head q)
      ]
      | inr e ↦ inl (rw e at a)
    ]
  ]

  record IsOrderly (m : List (String × Finding)) : Type 0 where
    keyed : IsKeyed m
    distinct : Distinct (keys m)

  dedupe_step-IsOrderly :
      (m : List (String × Finding)) (f : Finding) → IsOrderly m → IsOrderly (dedupe_step lower m f)
  unfolding dedupe_step
  dedupe_step-IsOrderly m f o = elim (Bool-cases (replaces lower f (get m (key lower f)))) [
    | inr e ↦ rw e o
    | inl e ↦ rw e (record {
      keyed =
          All-set (λ (e : String × Finding). key lower e.1 ≡ e.0) m (key lower f) f o.keyed
            (λ j q. q);
      distinct = Distinct-keys-set m (key lower f) f o.distinct;
    })
  ]

  dedupe_from-IsOrderly :
      (l : List Finding) (m : List (String × Finding))
      → IsOrderly m
      → IsOrderly (dedupe_from lower m l)
  unfolding dedupe_from
  dedupe_from-IsOrderly [] m o = o
  dedupe_from-IsOrderly (f ∷ l) m o =
      dedupe_from-IsOrderly l (dedupe_step lower m f) (dedupe_step-IsOrderly m f o)

  keys-eq-map-key : (m : List (String × Finding)) → IsKeyed m → keys m ≡ map (key lower) (values m)
  keys-eq-map-key [] h = refl
  keys-eq-map-key ((j, f) ∷ m) h = ground (arith, h.0, keys-eq-map-key m h.1)

dedupe_keys :
    (lower : String → String) (l : List Finding)
    → ((x : Finding) → Memᴰ x (dedupe lower l) → Memᴰ x l)
      × ((f : Finding)
          → Memᴰ f l
          → (g : Finding) × Memᴰ g (dedupe lower l)
            × (key lower g ≡ key lower f)
            × (severity_order f.severity ≤ severity_order g.severity))
      × Distinct (map (key lower) (dedupe lower l))
unfolding dedupe get
dedupe_keys lower l =
    let o = dedupe_from-IsOrderly lower l [] (record { keyed = tt; distinct = tt }) in
    (
      λ x h. elim (dedupe_from_mem lower l [] x h) [ inl z ↦ elim z [ ] | inr a ↦ a ],
      λ f h.
          let (g, e, le) = dedupe_from-Covers lower l [] f h in
          (g, mem-values_of_get _ _ e, get-All _ _ _ o.keyed e, le),
      subst Distinct (keys-eq-map-key lower _ o.keyed) o.distinct,
    )

-- What `dedupe` reports of findings in files whose paths hold no colon. Every finding reported was
-- raised; every finding raised is represented by one of the same file, the same line and the same
-- description in lower case, a missing file or line counting as an empty text, that is at least as
-- severe; and no two of those reported agree in all three.
pub dedupe_exact :
    (lower : String → String) (l : List Finding)
    → ((f : Finding) → Memᴰ f l → HasPlainPath f)
    → ((x : Finding) → Memᴰ x (dedupe lower l) → Memᴰ x l)
      × ((f : Finding)
          → Memᴰ f l
          → (g : Finding) × Memᴰ g (dedupe lower l)
            × (spot lower g ≡ spot lower f)
            × (severity_order f.severity ≤ severity_order g.severity))
      × Apart lower (dedupe lower l)
dedupe_exact lower l plain =
    let (raised, covered, distinct) = dedupe_keys lower l in
    (
      raised,
      λ f h.
          let (g, m, e, le) = covered f h in
          (g, m, spot_of_key lower f g (plain f h) (plain g (raised g m)) e, le),
      Apart-of_keys lower (dedupe lower l) distinct,
    )

-- So collapsing duplicates hides no blocking finding, and makes none.
pub any_blocking-dedupe :
    (lower : String → String) (bar : Severity) (l : List Finding)
    → any_blocking bar (dedupe lower l) ≡ any_blocking bar l
any_blocking-dedupe lower bar l =
    let (raised, covered, _) = dedupe_keys lower l in
    Bool-ext _ _
      (λ h. let (x, m, b) = mem-of_any _ (dedupe lower l) h in any-of_mem _ x l (raised x m) b)
      (λ h.
        let (f, m, b) = mem-of_any _ l h in
        let (g, n, _, le) = covered f m in
        any-of_mem _ g (dedupe lower l) n (
          ground (
            arith,
            is_at_least_severity_iff f.severity bar,
            is_at_least_severity_iff g.severity bar,
          )))
