-- ===== src/Checks/Blocking/Guards.antt =====
-- How a test over findings passes through the loops and guards of the checks.
use space_elysiajs_orpc.Prelude.{
  Bool, true, false, List, [], ◌∷◌, ◌++◌, any, ◌&&◌, ◌||◌, if◌then◌else◌, ◌≡◌, refl, arith,
  any-append,
}
use space_elysiajs_orpc.Policy.{Severity, is_at_least_severity}
use space_elysiajs_orpc.Review.{Finding}
use space_elysiajs_orpc.Checks.Paths.{for_each}

pub any_cong {ℓ} :
    {A : Type ℓ} {p q : A → Bool} → ((a : A) → p a ≡ q a) → (xs : List A) → any p xs ≡ any q xs
any_cong h [] = refl
any_cong h (x ∷ xs) = ground (arith, h x, any_cong h xs)

pub any-for_each {ℓ κ} :
    {A : Type ℓ} {B : Type κ} (p : B → Bool) (f : A → List B) (xs : List A)
    → any p (for_each f xs) ≡ any (λ a. any p (f a)) xs
unfolding for_each
any-for_each p f [] = refl
any-for_each p f (x ∷ xs) = ground (arith, any-append p (f x) (for_each f xs), any-for_each p f xs)

-- What a guard keeps of a list.
pub any-if :
    (p : Finding → Bool) (b : Bool) (l : List Finding)
    → any p (if b then l else []) ≡ (b && any p l)
any-if p true l = refl
any-if p false l = refl

abbrev pub is_serious : Finding → Bool
is_serious f = is_at_least_severity f.severity Severity.high

abbrev pub serious : List Finding → Bool
serious = any is_serious

pub serious-append :
    {a b : Bool} (l m : List Finding) → serious l ≡ a → serious m ≡ b → serious (l ++ m) ≡ (a || b)
serious-append l m h k = ground (arith, any-append is_serious l m)

-- One finding under a guard, at the blocking severity or below it.
pub raised : (b : Bool) (f : Finding) → is_serious f ≡ true → serious (if b then f ∷ [] else []) ≡ b
raised true f h = ground arith
raised false f h = refl

pub muted :
    (b : Bool) (f : Finding) → is_serious f ≡ false → serious (if b then f ∷ [] else []) ≡ false
muted true f h = ground arith
muted false f h = refl
