-- ===== src/Prelude/Assoc.antt =====
-- JavaScript's `Map` with text keys, in insertion order: setting a key that is there keeps its
-- place.
use mathlib.Core.Path.{◌≡◌, refl, subst}
use mathlib.Core.Logic.{◌⊎◌, inl, inr}
use mathlib.Core.Bool.{Bool, true, false, ◌||◌}
use mathlib.Core.Option.{Option, none, some}
use mathlib.Core.List.{List, [], ◌∷◌, map, Memᴰ}
use mathlib.Core.List.Memᴰ
use native.Mathlib.Omega.{arith}
use Prim.Native.String.{String}
use text.Mathlib.Text.{◌==◌}
use text.Mathlib.TextEquality.{eq_iff}
use space_elysiajs_orpc.Prelude.Tests.{if◌then◌else◌, Bool-cases}
use space_elysiajs_orpc.Prelude.Lists.{includes, Distinct, All}

module _ {ℓ} {V : Type ℓ} where
  unfoldable pub get : List (String × V) → String → Option V
  get [] k = none
  get ((j, v) ∷ m) k = if j == k then some v else get m k

  unfoldable pub set : List (String × V) → String → V → List (String × V)
  set [] k v = (k, v) ∷ []
  set ((j, w) ∷ m) k v = if j == k then (j, v) ∷ m else (j, w) ∷ set m k v

  abbrev pub values : List (String × V) → List V
  values = map (λ (e : String × V). e.1)

  abbrev pub keys : List (String × V) → List String
  keys = map (λ (e : String × V). e.0)

  pub get-set :
      (m : List (String × V)) (k j : String) (v : V)
      → get (set m k v) j ≡ (if k == j then some v else get m j)
  unfolding get set
  get-set [] k j v = refl
  get-set ((i, w) ∷ m) k j v = ground (arith, eq_iff k j, eq_iff i k, eq_iff i j, get-set m k j v)

  -- Each value of the new map is an old one or the one that was set.
  pub mem-values-set :
      (m : List (String × V)) (k : String) (v x : V)
      → Memᴰ x (values (set m k v))
      → Memᴰ x (values m) ⊎ (x ≡ v)
  unfolding set
  mem-values-set [] k v x h = elim (Memᴰ.cases_cons h) [ inl e ↦ inr e | inr z ↦ elim z [ ] ]
  mem-values-set ((j, w) ∷ m) k v x h = elim (Bool-cases (j == k)) [
    | inl e ↦ elim (Memᴰ.cases_cons (rw e at h)) [ inl q ↦ inr q | inr t ↦ inl (Memᴰ.tail t) ]
    | inr e ↦ elim (Memᴰ.cases_cons (rw e at h)) [
      | inl q ↦ inl (Memᴰ.head q)
      | inr t ↦ elim (mem-values-set m k v x t) [ inl a ↦ inl (Memᴰ.tail a) | inr q ↦ inr q ]
    ]
  ]

  -- A key's value is among the values.
  pub mem-values_of_get :
      (m : List (String × V)) (k : String) {v : V} → get m k ≡ some v → Memᴰ v (values m)
  unfolding get
  mem-values_of_get [] k h = cc
  mem-values_of_get ((j, w) ∷ m) k {v} h = elim (Bool-cases (j == k)) [
    | inl e ↦ let q : v ≡ w = ground arith in Memᴰ.head q
    | inr e ↦ Memᴰ.tail (mem-values_of_get m k (rw e at h))
  ]

  pub includes-keys-set :
      (m : List (String × V)) (k j : String) (v : V)
      → includes j (keys (set m k v)) ≡ (includes j (keys m) || k == j)
  unfolding set
  includes-keys-set [] k j v = ground arith
  includes-keys-set ((i, w) ∷ m) k j v =
      ground (arith, eq_iff i k, eq_iff i j, eq_iff k j, includes-keys-set m k j v)

  pub Distinct-keys-set :
      (m : List (String × V)) (k : String) (v : V) → Distinct (keys m) → Distinct (keys (set m k v))
  unfolding set
  Distinct-keys-set [] k v h = (refl, tt)
  Distinct-keys-set ((i, w) ∷ m) k v h = elim (Bool-cases (i == k)) [
    | inl e ↦ rw e h
    | inr e ↦ rw e (
      ground (arith, includes-keys-set m k i v, eq_iff i k, eq_iff k i, h.0),
      Distinct-keys-set m k v h.1,
    )
  ]

-- A predicate on the entries is kept by `set`, where the value goes with every key that it equals.
pub All-set :
    {V : Type 0} (P : String × V → Type 0) (m : List (String × V)) (k : String) (v : V)
    → All P m
    → ((j : String) → k ≡ j → P (j, v))
    → All P (set m k v)
unfolding set
All-set P [] k v h p = (p k refl, tt)
All-set P ((j, w) ∷ m) k v h p = elim (Bool-cases (j == k)) [
  | inl e ↦ rw e (p j (ground (arith, eq_iff j k)), h.1)
  | inr e ↦ rw e (h.0, All-set P m k v h.1 p)
]

pub get-All :
    {V : Type 0} (P : String × V → Type 0) (m : List (String × V)) (k : String) {v : V}
    → All P m
    → get m k ≡ some v
    → P (k, v)
unfolding get
get-All P [] k h e = cc
get-All P ((j, w) ∷ m) k {v} h e = elim (Bool-cases (j == k)) [
  | inl q ↦ let s : (j, w) ≡ (k, v) = ground (arith, eq_iff j k) in subst P s h.0
  | inr q ↦ get-All P m k h.1 (rw q at e)
]

-- `m.has(k)`
abbrev pub has {ℓ} : {V : Type ℓ} → List (String × V) → String → Bool
has m k = elim (get m k) [ none ↦ false | some _ ↦ true ]

pub has-eq-includes {ℓ} :
    {V : Type ℓ} (m : List (String × V)) (k : String) → has m k ≡ includes k (keys m)
unfolding get
has-eq-includes [] k = refl
has-eq-includes ((j, w) ∷ m) k = ground (arith, has-eq-includes m k)
