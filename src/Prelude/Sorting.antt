-- ===== src/Prelude/Sorting.antt =====
-- `Array.prototype.sort`, which is stable, as an insertion sort by a Boolean order.
use mathlib.Core.Path.{◌≡◌, refl, sym, subst}
use mathlib.Core.Logic.{◌⊎◌, inl, inr}
use mathlib.Core.Bool.{Bool, true, false}
use mathlib.Core.List.{List, [], ◌∷◌, Memᴰ}
use mathlib.Core.List.Memᴰ
use space_elysiajs_orpc.Prelude.Tests.{if◌then◌else◌, Bool-cases}
use space_elysiajs_orpc.Prelude.Lists.{All}

module _ {A : Type 0} (le : A → A → Bool) where
  insert : A → List A → List A
  insert x [] = x ∷ []
  insert x (y ∷ ys) = let rest = insert x ys in if le x y then x ∷ y ∷ ys else y ∷ rest

  unfoldable pub sort : List A → List A
  unfolding insert
  sort [] = []
  sort (x ∷ xs) = insert x (sort xs)

  mem-insert_self : (x : A) (ys : List A) → Memᴰ x (insert x ys)
  unfolding insert
  mem-insert_self x [] = Memᴰ.head refl
  mem-insert_self x (y ∷ ys) = elim (Bool-cases (le x y)) [
    | inl e ↦ rw e (Memᴰ.head refl)
    | inr e ↦ rw e (Memᴰ.tail (mem-insert_self x ys))
  ]

  mem-insert_old : (x z : A) (ys : List A) → Memᴰ z ys → Memᴰ z (insert x ys)
  unfolding insert
  mem-insert_old x z [] m = elim m [ ]
  mem-insert_old x z (y ∷ ys) m = elim (Bool-cases (le x y)) [
    | inl e ↦ rw e (Memᴰ.tail m)
    | inr e ↦ elim (Memᴰ.cases_cons m) [
      | inl q ↦ rw e (Memᴰ.head q)
      | inr t ↦ rw e (Memᴰ.tail (mem-insert_old x z ys t))
    ]
  ]

  mem-of_insert : (x z : A) (ys : List A) → Memᴰ z (insert x ys) → (z ≡ x) ⊎ Memᴰ z ys
  unfolding insert
  mem-of_insert x z [] m = elim (Memᴰ.cases_cons m) [ inl q ↦ inl q | inr t ↦ elim t [ ] ]
  mem-of_insert x z (y ∷ ys) m = elim (Bool-cases (le x y)) [
    | inl e ↦ Memᴰ.cases_cons (rw e at m)
    | inr e ↦ elim (Memᴰ.cases_cons (rw e at m)) [
      | inl q ↦ inr (Memᴰ.head q)
      | inr t ↦ elim (mem-of_insert x z ys t) [ inl q ↦ inl q | inr n ↦ inr (Memᴰ.tail n) ]
    ]
  ]

  pub mem-sort : (z : A) (xs : List A) → Memᴰ z xs → Memᴰ z (sort xs)
  unfolding sort
  mem-sort z [] m = m
  mem-sort z (x ∷ xs) (Memᴰ.head q) =
      subst (λ w. Memᴰ w (insert x (sort xs))) (sym q) (mem-insert_self x (sort xs))
  mem-sort z (x ∷ xs) (Memᴰ.tail m) = mem-insert_old x z (sort xs) (mem-sort z xs m)

  pub mem-of_sort : (z : A) (xs : List A) → Memᴰ z (sort xs) → Memᴰ z xs
  unfolding sort
  mem-of_sort z [] m = m
  mem-of_sort z (x ∷ xs) m = elim (mem-of_insert x z (sort xs) m) [
    | inl q ↦ Memᴰ.head q
    | inr t ↦ Memᴰ.tail (mem-of_sort z xs t)
  ]

  -- Every item comes before all that follow it.
  abbrev pub IsSorted : List A → Type 0
  IsSorted [] = Unit
  IsSorted (x ∷ xs) = All (λ y. le x y ≡ true) xs × IsSorted xs

  module _ (total : (x y : A) → le x y ≡ false → le y x ≡ true)
      (trans : (x y z : A) → le x y ≡ true → le y z ≡ true → le x z ≡ true) where
    All-trans :
        (x y : A) (ys : List A)
        → le x y ≡ true
        → All (λ z. le y z ≡ true) ys
        → All (λ z. le x z ≡ true) ys
    All-trans x y [] e h = tt
    All-trans x y (z ∷ ys) e h = (trans x y z e h.0, All-trans x y ys e h.1)

    All-insert :
        (w x : A) (ys : List A)
        → le w x ≡ true
        → All (λ z. le w z ≡ true) ys
        → All (λ z. le w z ≡ true) (insert x ys)
    unfolding insert
    All-insert w x [] e h = (e, tt)
    All-insert w x (y ∷ ys) e h = elim (Bool-cases (le x y)) [
      | inl q ↦ rw q (e, h)
      | inr q ↦ rw q (h.0, All-insert w x ys e h.1)
    ]

    insert-IsSorted : (x : A) (ys : List A) → IsSorted ys → IsSorted (insert x ys)
    unfolding insert
    insert-IsSorted x [] h = (tt, tt)
    insert-IsSorted x (y ∷ ys) h = elim (Bool-cases (le x y)) [
      | inl e ↦ rw e ((e, All-trans x y ys e h.0), h)
      | inr e ↦ rw e (All-insert y x ys (total x y e) h.0, insert-IsSorted x ys h.1)
    ]

    pub sort-IsSorted : (xs : List A) → IsSorted (sort xs)
    unfolding sort
    sort-IsSorted [] = tt
    sort-IsSorted (x ∷ xs) = insert-IsSorted x (sort xs) (sort-IsSorted xs)
