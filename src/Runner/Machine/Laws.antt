-- ===== src/Runner/Machine/Laws.antt =====
-- Steps that may throw: what they keep, and what their results satisfy.
use space_elysiajs_orpc.Prelude.{String, Bool, true, false, ◌≡◌, refl, if◌then◌else◌}
use space_elysiajs_orpc.Runner.Machine.{M, ◌>>=◌, pure, throw, catch, Result, ok, thrown}

abbrev pub Given : {A : Type 0} → (A → Type 0) → Result A → Type 0
Given Q (ok a) = Q a
Given Q (thrown _) = Unit

pub trivial-Given : {A : Type 0} (r : Result A) → Given (λ _. Unit) r
trivial-Given (ok a) = tt
trivial-Given (thrown message) = tt

pub Given-of_eq :
    {A : Type 0} (Q : A → Type 0) (r : Result A) → ((a : A) → r ≡ ok a → Q a) → Given Q r
Given-of_eq Q (ok a) h = h a refl
Given-of_eq Q (thrown message) h = tt

imp-Given :
    {A : Type 0} (Q R : A → Type 0) (r : Result A) → ((a : A) → Q a → R a) → Given Q r → Given R r
imp-Given Q R (ok a) w q = w a q
imp-Given Q R (thrown message) w q = tt

module _ {S : Type 0} where
  -- What holds before a step holds after it, whether it throws or not.
  unfoldable pub Keeps : {A : Type 0} → (S → Type 0) → M S A → Type 0
  Keeps I m = (s : S) → I s → I (m s).1

  abbrev gave : {A : Type 0} → Result A → S → M S A
  gave r t _ = (r, t)

  module _ (I : S → Type 0) where
    keep_result :
        {A B : Type 0} (f : A → M S B) (r : Result A) (t : S)
        → I t
        → ((a : A) → Keeps I (f a))
        → I ((gave r t >>= f) t).1
    unfolding Keeps
    keep_result f (ok a) t i g = g a t i
    keep_result f (thrown message) t i g = i

    pub Keeps-bind :
        {A B : Type 0} (m : M S A) (f : A → M S B)
        → Keeps I m
        → ((a : A) → Keeps I (f a))
        → Keeps I (m >>= f)
    unfolding Keeps
    Keeps-bind m f h g s i = keep_result f (m s).0 (m s).1 (h s i) g

    keep_caught :
        {A : Type 0} (f : String → M S A) (r : Result A) (t : S)
        → I t
        → ((message : String) → Keeps I (f message))
        → I (catch (gave r t) f t).1
    unfolding Keeps
    keep_caught f (ok a) t i g = i
    keep_caught f (thrown message) t i g = g message t i

    pub Keeps-catch :
        {A : Type 0} (m : M S A) (f : String → M S A)
        → Keeps I m
        → ((message : String) → Keeps I (f message))
        → Keeps I (catch m f)
    unfolding Keeps
    Keeps-catch m f h g s i = keep_caught f (m s).0 (m s).1 (h s i) g

    pub Keeps-pure : {A : Type 0} (a : A) → Keeps I (pure a)
    unfolding Keeps
    Keeps-pure a s i = i

    pub Keeps-throw : (A : Type 0) (message : String) → Keeps I (throw {A = A} message)
    unfolding Keeps
    Keeps-throw A message s i = i

  -- From a state in I a step leads to one in N, and where it does not throw its result satisfies Q.
  unfoldable pub Leads : {A : Type 0} → (S → Type 0) → (S → Type 0) → M S A → (A → Type 0) → Type 0
  Leads I N m Q = (s : S) → I s → N (m s).1 × Given Q (m s).0

  pub Leads-of-Keeps :
      {A : Type 0} (I : S → Type 0) (m : M S A) → Keeps I m → Leads I I m (λ _. Unit)
  unfolding Keeps Leads
  Leads-of-Keeps I m h s i = (h s i, trivial-Given (m s).0)

  pub Keeps-of-Leads :
      {A : Type 0} (I : S → Type 0) (m : M S A) (Q : A → Type 0) → Leads I I m Q → Keeps I m
  unfolding Keeps Leads
  Keeps-of-Leads I m Q h s i = (h s i).0

  pub Leads-pure :
      {A : Type 0} (I : S → Type 0) (a : A) (Q : A → Type 0) → Q a → Leads I I (pure a) Q
  unfolding Leads
  Leads-pure I a Q q s i = (i, q)

  pub Leads-weaker :
      {A : Type 0} (I N : S → Type 0) (a : A) (Q : A → Type 0)
      → ((s : S) → I s → N s)
      → Q a
      → Leads I N (pure a) Q
  unfolding Leads
  Leads-weaker I N a Q w q s i = (w s i, q)

  pub Leads-imp :
      {A : Type 0} (I N L : S → Type 0) (Q R : A → Type 0) (m : M S A)
      → ((s : S) → N s → L s)
      → ((a : A) → Q a → R a)
      → Leads I N m Q
      → Leads I L m R
  unfolding Leads
  Leads-imp I N L Q R m w v h s i = (w (m s).1 (h s i).0, imp-Given Q R (m s).0 v (h s i).1)

  lead_result :
      {A B : Type 0} (N L : S → Type 0) (f : A → M S B) (r : Result A) (t : S) (Q : A → Type 0)
      (R : B → Type 0)
      → N t
      → Given Q r
      → ((s : S) → N s → L s)
      → ((a : A) → Q a → Leads N L (f a) R)
      → L ((gave r t >>= f) t).1 × Given R ((gave r t >>= f) t).0
  unfolding Leads
  lead_result N L f (ok a) t Q R j q w g = g a q t j
  lead_result N L f (thrown message) t Q R j q w g = (w t j, tt)

  pub Leads-bind :
      {A B : Type 0} (I N L : S → Type 0) (Q : A → Type 0) (R : B → Type 0) (m : M S A)
      (f : A → M S B)
      → Leads I N m Q
      → ((s : S) → N s → L s)
      → ((a : A) → Q a → Leads N L (f a) R)
      → Leads I L (m >>= f) R
  unfolding Leads
  Leads-bind I N L Q R m f h w g s i = lead_result N L f (m s).0 (m s).1 Q R (h s i).0 (h s i).1 w g

  module _ (I : S → Type 0) where
    pub Runs-bind :
        {A B : Type 0} (Q : A → Type 0) (R : B → Type 0) (m : M S A) (f : A → M S B)
        → Leads I I m Q
        → ((a : A) → Q a → Leads I I (f a) R)
        → Leads I I (m >>= f) R
    Runs-bind Q R m f h g = Leads-bind I I I Q R m f h (λ s i. i) g

    -- A step of which only what it keeps is known.
    pub Runs-after :
        {A B : Type 0} (R : B → Type 0) (m : M S A) (f : A → M S B)
        → Keeps I m
        → ((a : A) → Leads I I (f a) R)
        → Leads I I (m >>= f) R
    Runs-after R m f h g = Runs-bind _ R m f (Leads-of-Keeps I m h) (λ a _. g a)

    pub Runs-if :
        {A : Type 0} (R : A → Type 0) (b : Bool) (m n : M S A)
        → (b ≡ true → Leads I I m R)
        → (b ≡ false → Leads I I n R)
        → Leads I I (if b then m else n) R
    Runs-if R true m n h g = h refl
    Runs-if R false m n h g = g refl
