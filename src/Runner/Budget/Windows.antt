-- ===== src/Runner/Budget/Windows.antt =====
-- What pruning leaves of a window's count.
use space_elysiajs_orpc.Prelude.{
  ℕ, ◌+◌, ◌≤◌, false, List, [], ◌∷◌, ◌++◌, ◌≡◌, refl, arith, leb, ltb, Bool-cases, inl, inr,
}
use space_elysiajs_orpc.Runner.Budget.{within, drop_aged}

-- What has aged out earlier is in no later window.
pub within-drop_aged :
    (then_ now window : ℕ) (xs : List ℕ)
    → then_ ≤ now
    → within now window (drop_aged then_ window xs) ≡ within now window xs
unfolding within drop_aged
within-drop_aged t now w [] h = refl
within-drop_aged t now w (x ∷ xs) h = elim (Bool-cases (ltb (x + w) t)) [
  | inl e ↦
      let q : leb now (x + w) ≡ false = ground arith in rw (e, q) (within-drop_aged t now w xs h)
  | inr e ↦ rw e refl
]

-- A later window counts no more of the same events.
pub within_later :
    (now later window : ℕ) (xs : List ℕ)
    → now ≤ later
    → within later window xs ≤ within now window xs
unfolding within
within_later now later w [] h = omega arith
within_later now later w (x ∷ xs) h = ground (arith, within_later now later w xs h)

pub within-append :
    (now window : ℕ) (xs ys : List ℕ)
    → within now window (xs ++ ys) ≡ within now window xs + within now window ys
unfolding within
within-append now w [] ys = omega arith
within-append now w (x ∷ xs) ys = ground (arith, within-append now w xs ys)
