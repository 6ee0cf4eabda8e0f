-- ===== src/Prelude/Lists.antt =====
-- Lists: lengths and tests over the native numbers and `Bool`, and what a test over a list says.
use Prim.Native.Nat.{ℕ, zero, suc, ◌+◌, ◌-◌, ◌≤◌}
use Prim.Native.String.{String}
use mathlib.Core.Path.{◌≡◌, refl, sym, ap, ◌∙◌, subst}
use mathlib.Core.Logic.{◌↔◌, inl, inr}
use mathlib.Core.Bool.{Bool, true, false, ◌&&◌, ◌||◌}
use mathlib.Core.Option.{Option, none, some}
use mathlib.Core.List.Memᴰ
use mathlib.Core.List.{List, [], ◌∷◌, ◌++◌, map, Memᴰ}
use native.Mathlib.Omega.{arith}
use text.Mathlib.Text.{◌==◌}
use text.Mathlib.TextEquality.{eq_iff}
use space_elysiajs_orpc.Prelude.Tests.{if◌then◌else◌, Bool-cases}

module _ {ℓ} {A : Type ℓ} where
  abbrev pub length : List A → ℕ
  length [] = 0
  length (x ∷ xs) = suc (length xs)

  pub length-append : (xs ys : List A) → length (xs ++ ys) ≡ length xs + length ys
  length-append [] ys = omega arith
  length-append (x ∷ xs) ys = omega (arith, length-append xs ys)

  abbrev pub is_empty : List A → Bool
  is_empty [] = true
  is_empty (x ∷ xs) = false

  abbrev pub any : (A → Bool) → List A → Bool
  any p [] = false
  any p (x ∷ xs) = p x || any p xs

  abbrev pub all : (A → Bool) → List A → Bool
  all p [] = true
  all p (x ∷ xs) = p x && all p xs

  abbrev pub filter : (A → Bool) → List A → List A
  filter p [] = []
  filter p (x ∷ xs) = let rest = filter p xs in if p x then x ∷ rest else rest

  abbrev pub find : (A → Bool) → List A → Option A
  find p [] = none
  find p (x ∷ xs) = let rest = find p xs in if p x then some x else rest

  abbrev pub head? : List A → Option A
  head? [] = none
  head? (x ∷ xs) = some x

  abbrev pub take : ℕ → List A → List A
  take zero xs = []
  take (suc n) [] = []
  take (suc n) (x ∷ xs) = x ∷ take n xs

  abbrev pub drop : ℕ → List A → List A
  drop zero xs = xs
  drop (suc n) [] = []
  drop (suc n) (x ∷ xs) = drop n xs

  pub length-drop : (n : ℕ) (xs : List A) → length (drop n xs) ≡ length xs - n
  length-drop zero xs = omega arith
  length-drop (suc n) [] = omega arith
  length-drop (suc n) (x ∷ xs) = omega (arith, length-drop n xs)

  pub length-take : (n : ℕ) (xs : List A) → length (take n xs) ≤ n
  length-take zero xs = omega arith
  length-take (suc n) [] = omega arith
  length-take (suc n) (x ∷ xs) = omega (arith, length-take n xs)

  pub any-of_mem : (p : A → Bool) (a : A) (xs : List A) → Memᴰ a xs → p a ≡ true → any p xs ≡ true
  any-of_mem p a [] m h = elim m [ ]
  any-of_mem p a (x ∷ xs) (Memᴰ.head e) h = ground (arith, ap p e)
  any-of_mem p a (x ∷ xs) (Memᴰ.tail m) h = ground (arith, any-of_mem p a xs m h)

  pub mem-of_any :
      (p : A → Bool) (xs : List A) → any p xs ≡ true → (a : A) × Memᴰ a xs × (p a ≡ true)
  mem-of_any p [] h = cc
  mem-of_any p (x ∷ xs) h = elim (Bool-cases (p x)) [
    | inl e ↦ (x, Memᴰ.head refl, e)
    | inr e ↦ let (a, m, q) = mem-of_any p xs (rw e at h) in (a, Memᴰ.tail m, q)
  ]

  pub all-of_mem : (p : A → Bool) (a : A) (xs : List A) → all p xs ≡ true → Memᴰ a xs → p a ≡ true
  all-of_mem p a [] h m = elim m [ ]
  all-of_mem p a (x ∷ xs) h (Memᴰ.head e) = ground (arith, ap p e)
  all-of_mem p a (x ∷ xs) h (Memᴰ.tail m) = all-of_mem p a xs (ground arith) m

  pub any-append : (p : A → Bool) (xs ys : List A) → any p (xs ++ ys) ≡ (any p xs || any p ys)
  any-append p [] ys = refl
  any-append p (x ∷ xs) ys = ground (arith, any-append p xs ys)

  -- A filter is empty exactly when no item passes.
  pub is_empty-filter :
      (p : A → Bool) (xs : List A) → (is_empty (filter p xs) ≡ false) ↔ (any p xs ≡ true)
  is_empty-filter p [] = ground arith
  is_empty-filter p (x ∷ xs) = ground (arith, is_empty-filter p xs)

  -- Exactly the listed items that pass are in a filter's result.
  pub mem-filter_of_mem :
      (p : A → Bool) (a : A) (xs : List A) → Memᴰ a xs → p a ≡ true → Memᴰ a (filter p xs)
  mem-filter_of_mem p a [] m h = elim m [ ]
  mem-filter_of_mem p a (x ∷ xs) (Memᴰ.head e) h = rw (← ap p e, h) (Memᴰ.head e)
  mem-filter_of_mem p a (x ∷ xs) (Memᴰ.tail m) h = elim (Bool-cases (p x)) [
    | inl e ↦ rw e (Memᴰ.tail (mem-filter_of_mem p a xs m h))
    | inr e ↦ rw e (mem-filter_of_mem p a xs m h)
  ]

  pub mem-of_filter :
      (p : A → Bool) (a : A) (xs : List A) → Memᴰ a (filter p xs) → Memᴰ a xs × (p a ≡ true)
  mem-of_filter p a [] m = elim m [ ]
  mem-of_filter p a (x ∷ xs) m = elim (Bool-cases (p x)) [
    | inl e ↦ elim (Memᴰ.cases_cons (rw e at m)) [
      | inl q ↦ (Memᴰ.head q, ap p q ∙ e)
      | inr q ↦ let (n, r) = mem-of_filter p a xs q in (Memᴰ.tail n, r)
    ]
    | inr e ↦ let (n, r) = mem-of_filter p a xs (rw e at m) in (Memᴰ.tail n, r)
  ]

  pub mem-of_find :
      (p : A → Bool) (xs : List A) {a : A} → find p xs ≡ some a → Memᴰ a xs × (p a ≡ true)
  mem-of_find p [] h = cc
  mem-of_find p (x ∷ xs) {a} h = elim (Bool-cases (p x)) [
    | inl e ↦ let q : x ≡ a = ground arith in (Memᴰ.head (sym q), rw (← q) e)
    | inr e ↦ let (m, r) = mem-of_find p xs (rw e at h) in (Memᴰ.tail m, r)
  ]

module _ {ℓ κ} {A : Type ℓ} (P : A → Type κ) where
  abbrev pub All : List A → Type κ
  All [] = Unit
  All (x ∷ xs) = P x × All xs

  pub All-mem : (a : A) (xs : List A) → All xs → Memᴰ a xs → P a
  All-mem a [] h m = elim m [ ]
  All-mem a (x ∷ xs) h (Memᴰ.head e) = rw e h.0
  All-mem a (x ∷ xs) h (Memᴰ.tail m) = All-mem a xs h.1 m

  pub All-append : (xs ys : List A) → All xs → All ys → All (xs ++ ys)
  All-append [] ys h k = k
  All-append (x ∷ xs) ys h k = (h.0, All-append xs ys h.1 k)

-- `xs.includes(s)`
abbrev pub includes : String → List String → Bool
includes s xs = any (λ x. x == s) xs

pub includes_iff : (s : String) (xs : List String) → (includes s xs ≡ true) ↔ Memᴰ s xs
includes_iff s xs = (
  λ h. let (a, m, e) = mem-of_any _ xs h in subst (λ t. Memᴰ t xs) ((eq_iff a s).0 e) m,
  λ m. any-of_mem _ s xs m ((eq_iff s s).1 refl),
)

-- No text is listed twice.
abbrev pub Distinct : List String → Type 0
Distinct [] = Unit
Distinct (x ∷ xs) = (includes x xs ≡ false) × Distinct xs

pub includes-append :
    (s : String) (xs ys : List String) → includes s (xs ++ ys) ≡ (includes s xs || includes s ys)
includes-append s xs ys = any-append (λ x. x == s) xs ys

pub Distinct-append :
    (xs : List String) (y : String) → Distinct xs → includes y xs ≡ false → Distinct (xs ++ y ∷ [])
Distinct-append [] y h n = (refl, tt)
Distinct-append (x ∷ xs) y h n = (
  ground (arith, includes-append x xs (y ∷ []), eq_iff x y, eq_iff y x, h.0),
  Distinct-append xs y h.1 (ground arith),
)

abbrev pub get_or {ℓ} : {A : Type ℓ} → List A → ℕ → A → A
get_or [] i d = d
get_or (x ∷ xs) zero d = x
get_or (x ∷ xs) (suc i) d = get_or xs i d

pub length-map {ℓ κ} :
    {A : Type ℓ} {B : Type κ} (f : A → B) (l : List A) → length (map f l) ≡ length l
length-map f [] = refl
length-map f (x ∷ l) = ap suc (length-map f l)
