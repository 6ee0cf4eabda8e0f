-- ===== src/Policy/Steps.antt =====
-- The verification steps of a tier.
use mathlib.Core.Option
use mathlib.Core.List.{map-append}
use mathlib.Core.List.Memᴰ
use space_elysiajs_orpc.Prelude.{
  ℕ, zero, suc, String, true, some, List, [], ◌∷◌, ◌++◌, map, Memᴰ, ◌≡◌, refl, sym, ap, ◌∙◌, subst,
  arith, ◌⊎◌, inl, inr, ◌≢◌, includes, includes-append, Distinct, Distinct-append, eq_iff, ◌||◌,
  ◌==◌, eqb, Bool-cases, Option-cases,
}
use space_elysiajs_orpc.Policy.{
  RiskLevel, risk_order, TierStep, LoopPolicy, tier_of, Collected, add_step, add_steps, collect,
  steps_for_risk,
}
use space_elysiajs_orpc.Policy.Order.{risk_order-injective}

abbrev pub names : List TierStep → List String
names = map (λ (s : TierStep). s.name)

-- `seen` is the set of the names collected, and none is collected twice.
record IsTracked (c : Collected) : Type 0 where
  same : c.seen ≡ names c.steps
  distinct : Distinct c.seen

add_step-IsTracked : (s : TierStep) (c : Collected) → IsTracked c → IsTracked (add_step s c)
unfolding add_step
add_step-IsTracked s c h = elim (Bool-cases (includes s.name c.seen)) [
  | inl e ↦ rw e h
  | inr e ↦ rw e (record {
    same = ap (λ xs. xs ++ s.name ∷ []) h.same ∙ sym (map-append _ c.steps (s ∷ []));
    distinct = Distinct-append c.seen s.name h.distinct e;
  })
]

add_steps-IsTracked : (l : List TierStep) (c : Collected) → IsTracked c → IsTracked (add_steps l c)
unfolding add_steps
add_steps-IsTracked [] c h = h
add_steps-IsTracked (s ∷ l) c h = add_steps-IsTracked l (add_step s c) (add_step-IsTracked s c h)

-- What was seen stays seen, and every name of the list is.
add_step_seen :
    (s : TierStep) (c : Collected) (n : String)
    → includes n (add_step s c).seen ≡ (includes n c.seen || s.name == n)
unfolding add_step
add_step_seen s c n =
    ground
      (arith, includes-append n c.seen (s.name ∷ []), eq_iff s.name n, ap (λ k. includes k c.seen))

add_steps_keeps :
    (l : List TierStep) (c : Collected) (n : String)
    → includes n c.seen ≡ true
    → includes n (add_steps l c).seen ≡ true
unfolding add_steps
add_steps_keeps [] c n h = h
add_steps_keeps (s ∷ l) c n h = add_steps_keeps l (add_step s c) n (rw (add_step_seen, h))

add_steps_adds :
    (l : List TierStep) (c : Collected) (s : TierStep)
    → Memᴰ s l
    → includes s.name (add_steps l c).seen ≡ true
unfolding add_steps
add_steps_adds [] c s m = elim m [ ]
add_steps_adds (t ∷ l) c s (Memᴰ.tail m) = add_steps_adds l (add_step t c) s m
add_steps_adds (t ∷ l) c s (Memᴰ.head q) = add_steps_keeps l (add_step t c) s.name (
    ground (arith, add_step_seen t c s.name, eq_iff t.name s.name, ap (λ (z : TierStep). z.name) q))

add_step_from :
    (t : TierStep) (c : Collected) (s : TierStep)
    → Memᴰ s (add_step t c).steps
    → Memᴰ s c.steps ⊎ (s ≡ t)
unfolding add_step
add_step_from t c s m = elim (Bool-cases (includes t.name c.seen)) [
  | inl e ↦ inl (rw e at m)
  | inr e ↦ elim (Memᴰ.append_cases c.steps (rw e at m)) [
    | inl b ↦ inl b
    | inr b ↦ elim (Memᴰ.cases_cons b) [ inl q ↦ inr q | inr z ↦ elim z [ ] ]
  ]
]

add_steps_from :
    (l : List TierStep) (c : Collected) (s : TierStep)
    → Memᴰ s (add_steps l c).steps
    → Memᴰ s c.steps ⊎ Memᴰ s l
unfolding add_steps
add_steps_from [] c s m = inl m
add_steps_from (t ∷ l) c s m = elim (add_steps_from l (add_step t c) s m) [
  | inl a ↦ elim (add_step_from t c s a) [ inl b ↦ inl b | inr q ↦ inr (Memᴰ.head q) ]
  | inr b ↦ inr (Memᴰ.tail b)
]

-- The tiers that a level draws its steps from.
pub data Inherits (policy : LoopPolicy) : RiskLevel → RiskLevel → Type 0 where
  own : {level : RiskLevel} → Inherits policy level level
  from :
      {level parent other : RiskLevel}
      → (tier_of policy level).inherits ≡ some parent
      → parent ≢ level
      → Inherits policy parent other
      → Inherits policy level other

-- One round of `collect`: the tier inherits nothing, or its parent is collected first.
data Round (policy : LoopPolicy) (depth : ℕ) (level : RiskLevel) (c r : Collected) : Type 0 where
  root :
      ((parent : RiskLevel) → (tier_of policy level).inherits ≡ some parent → parent ≡ level)
      → r ≡ add_steps (tier_of policy level).steps c
      → Round policy depth level c r
  above :
      (parent : RiskLevel) (mid : Collected)
      → (tier_of policy level).inherits ≡ some parent
      → parent ≢ level
      → collect policy depth parent c ≡ some mid
      → r ≡ add_steps (tier_of policy level).steps mid
      → Round policy depth level c r

collect-Round :
    (policy : LoopPolicy) (depth : ℕ) (level : RiskLevel) (c r : Collected)
    → collect policy (suc depth) level c ≡ some r
    → Round policy depth level c r
unfolding collect
collect-Round policy depth level c r h = elim (Option-cases (tier_of policy level).inherits) [
  | inl e ↦ root (λ parent p. cc) (ground (arith, rw e at h))
  | inr (parent, e) ↦ elim (Bool-cases (eqb (risk_order parent) (risk_order level))) [
    | inl q ↦
        root (λ other p. ground (arith, risk_order-injective parent level))
          (ground (arith, rw (e, q) at h))
    | inr q ↦ elim (Option-cases (collect policy depth parent c)) [
      | inl n ↦ absurd (ground (arith, rw (e, q, n) at h))
      | inr (mid, m) ↦
          above parent mid e (λ same. ground (arith, ap risk_order same)) m
            (ground (arith, rw (e, q, m) at h))
    ]
  ]
]

collect-IsTracked :
    (policy : LoopPolicy) (depth : ℕ) (level : RiskLevel) (c r : Collected)
    → IsTracked c
    → collect policy depth level c ≡ some r
    → IsTracked r
unfolding collect
collect-IsTracked policy zero level c r t h = cc
collect-IsTracked policy (suc depth) level c r t h = elim (collect-Round policy depth level c r h) [
  | root _ q ↦ rw q (add_steps-IsTracked _ c t)
  | above parent mid _ _ m q ↦
      rw q (add_steps-IsTracked _ mid (collect-IsTracked policy depth parent c mid t m))
]

collect_complete :
    (policy : LoopPolicy) (depth : ℕ) {level other : RiskLevel} (c r : Collected) (s : TierStep)
    → collect policy depth level c ≡ some r
    → Inherits policy level other
    → Memᴰ s (tier_of policy other).steps
    → includes s.name r.seen ≡ true
unfolding collect
collect_complete policy zero c r s h i m = cc
collect_complete policy (suc depth) {level} c r s h own m =
    elim (collect-Round policy depth level c r h) [
      | root _ q ↦ rw q (add_steps_adds _ c s m)
      | above _ mid _ _ _ q ↦ rw q (add_steps_adds _ mid s m)
    ]
collect_complete policy (suc depth) {level} c r s h (from {parent = up} e apart i) m =
    elim (collect-Round policy depth level c r h) [
      | root only _ ↦ absurd (apart (only up e))
      | above parent mid e' _ k q ↦
          let same : parent ≡ up = ground arith in
          rw q (
            add_steps_keeps _ mid s.name (
              collect_complete policy depth c mid s
                (subst (λ z. collect policy depth z c ≡ some mid) same k) i m))
    ]

collect_sound :
    (policy : LoopPolicy) (depth : ℕ) (level : RiskLevel) (c r : Collected) (s : TierStep)
    → collect policy depth level c ≡ some r
    → Memᴰ s r.steps
    → Memᴰ s c.steps
      ⊎ ((other : RiskLevel) × Inherits policy level other × Memᴰ s (tier_of policy other).steps)
unfolding collect
collect_sound policy zero level c r s h m = cc
collect_sound policy (suc depth) level c r s h m = elim (collect-Round policy depth level c r h) [
  | root _ q ↦ elim (add_steps_from _ c s (rw q at m)) [
    | inl a ↦ inl a
    | inr b ↦ inr (level, own, b)
  ]
  | above parent mid e apart k q ↦ elim (add_steps_from _ mid s (rw q at m)) [
    | inl a ↦ elim (collect_sound policy depth parent c mid s k a) [
      | inl b ↦ inl b
      | inr (other, i, b) ↦ inr (other, from e apart i, b)
    ]
    | inr b ↦ inr (level, own, b)
  ]
]

abbrev none_yet : Collected
none_yet = record { seen = []; steps = [] }

none_yet-IsTracked : IsTracked none_yet
none_yet-IsTracked = record { same = refl; distinct = tt }

steps_collected :
    (policy : LoopPolicy) (depth : ℕ) (risk : RiskLevel) {steps : List TierStep}
    → steps_for_risk policy depth risk ≡ some steps
    → (c : Collected) × (collect policy depth risk none_yet ≡ some c) × (c.steps ≡ steps)
unfolding steps_for_risk
steps_collected policy depth risk h = (Option.map-eq-some_iff _ _).0 h

-- What a tier verifies. Where the recursion ends, no step name is listed twice; the steps listed
-- all belong to the tier or to a tier that it inherits from, at any distance; and every step of
-- such a tier is listed, by its name.
pub steps_for_risk_exact :
    (policy : LoopPolicy) (depth : ℕ) (risk : RiskLevel) (steps : List TierStep)
    → steps_for_risk policy depth risk ≡ some steps
    → Distinct (names steps)
      × ((s : TierStep)
          → Memᴰ s steps
          → (other : RiskLevel) × Inherits policy risk other × Memᴰ s (tier_of policy other).steps)
      × ((other : RiskLevel) (s : TierStep)
          → Inherits policy risk other
          → Memᴰ s (tier_of policy other).steps
          → includes s.name (names steps) ≡ true)
steps_for_risk_exact policy depth risk steps h =
    let (c, k, q) = steps_collected policy depth risk h in
    let t = collect-IsTracked policy depth risk none_yet c none_yet-IsTracked k in
    let listed : c.seen ≡ names steps = t.same ∙ ap names q in
    (
      subst Distinct listed t.distinct,
      λ s m. elim (collect_sound policy depth risk none_yet c s k (rw (← q) at m)) [
        | inl z ↦ elim z [ ]
        | inr found ↦ found
      ],
      λ other s i m.
          subst (λ l. includes s.name l ≡ true) listed
            (collect_complete policy depth none_yet c s k i m),
    )
