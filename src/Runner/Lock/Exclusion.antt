-- ===== src/Runner/Lock/Exclusion.antt =====
-- Whether two live runners can hold the lock.
use space_elysiajs_orpc.Prelude.{
  ℕ, String, Bool, true, false, Option, none, some, eqb, ◌==◌, eq_iff, ◌≡◌, ◌≢◌, refl, subst, sym,
  ap, ◌∙◌, arith, Bool-cases, inl, inr,
}
use space_elysiajs_orpc.Runner.Lock.{
  LockFile, Machine, Phase, dead, idle, looked, holding, releasing, Step, starts, dies, looks,
  writes, finds_own, finds_other, removes, Reached, at_first, after, with_phase, options_of,
  refusal_of, lock_of, is_alive,
}

-- No process is between its look and its write.
abbrev pub NoneLooking : Machine → Type 0
NoneLooking m = (q : ℕ) → m.phase q ≢ looked

-- The file names the process.
pub record IsNamed (host : String) (file : Option LockFile) (pid : ℕ) : Type 0 where
  pub lock : LockFile
  pub is_file : file ≡ some lock
  pub is_pid : lock.pid ≡ pid
  pub is_host : lock.host ≡ host

-- The lock is the process's own until it has removed the file.
abbrev owns : Phase → Bool
owns holding = true
owns releasing = true
owns _ = false

record IsExclusive (host : String) (m : Machine) : Type 0 where
  -- Whose lock it is, is named in the file.
  named : (p : ℕ) → owns (m.phase p) ≡ true → IsNamed host m.file p
  -- While one is about to write, it is nobody's and no other is about to.
  free : (p : ℕ) → m.phase p ≡ looked → (q : ℕ) → owns (m.phase q) ≡ false
  alone : (p q : ℕ) → m.phase p ≡ looked → m.phase q ≡ looked → p ≡ q

-- A process in a phase that the step did not give was in it before, and is another process.
kept_phase :
    (phases : ℕ → Phase) (pid p : ℕ) (to x : Phase)
    → to ≢ x
    → with_phase phases pid to p ≡ x
    → (phases p ≡ x) × (eqb p pid ≡ false)
kept_phase phases pid p to x ne e = elim (Bool-cases (eqb p pid)) [
  | inl q ↦ elim (ne (rw q at e)) [ ]
  | inr q ↦ (rw q at e, q)
]

kept_owner :
    (phases : ℕ → Phase) (pid p : ℕ) (to : Phase)
    → owns to ≡ false
    → owns (with_phase phases pid to p) ≡ true
    → (owns (phases p) ≡ true) × (eqb p pid ≡ false)
kept_owner phases pid p to n e = elim (Bool-cases (eqb p pid)) [
  | inl q ↦ absurd (cc (n, rw q at e))
  | inr q ↦ (rw q at e, q)
]

still_free :
    (phases : ℕ → Phase) (pid q : ℕ) (to : Phase)
    → owns to ≡ false
    → owns (phases q) ≡ false
    → owns (with_phase phases pid to q) ≡ false
still_free phases pid q to n e = elim (Bool-cases (eqb q pid)) [ inl f ↦ rw f n | inr f ↦ rw f e ]

-- A step to another phase that leaves the file alone keeps all.
elsewhere-IsExclusive :
    (host : String) (m : Machine) (pid : ℕ) (to : Phase)
    → to ≢ looked
    → owns to ≡ false
    → IsExclusive host m
    → IsExclusive host (record { file = m.file; phase = with_phase m.phase pid to })
elsewhere-IsExclusive host m pid to l n h = record {
  named = λ p e. h.named p (kept_owner m.phase pid p to n e).0;
  free = λ p e q.
      still_free m.phase pid q to n (h.free p (kept_phase m.phase pid p to looked l e).0 q);
  alone = λ p q e f.
      h.alone p q (kept_phase m.phase pid p to looked l e).0
        (kept_phase m.phase pid q to looked l f).0;
}

owner-is_alive : (x : Phase) → owns x ≡ true → is_alive x ≡ true
owner-is_alive dead e = cc
owner-is_alive idle e = cc
owner-is_alive looked e = cc
owner-is_alive holding e = refl
owner-is_alive releasing e = refl

-- A live owner makes any other refuse.
refusal_of-named :
    (host : String) (m : Machine) (pid q : ℕ)
    → IsNamed host m.file q
    → owns (m.phase q) ≡ true
    → refusal_of (λ p. is_alive (m.phase p)) (options_of host pid) m.file ≢ none
unfolding refusal_of
refusal_of-named host m pid q n f ok =
    let same : (n.lock.host == host) ≡ true = (eq_iff _ _).1 n.is_host in
    let live : is_alive (m.phase n.lock.pid) ≡ true = rw n.is_pid (owner-is_alive (m.phase q) f) in
    let e = rw (n.is_file, same, live) at ok in cc

-- The file names one process only.
IsNamed-unique :
    (host : String) (file : Option LockFile) (p q : ℕ)
    → IsNamed host file p
    → IsNamed host file q
    → p ≡ q
IsNamed-unique host file p q a b =
    let same : a.lock ≡ b.lock = ground (arith, a.is_file, b.is_file) in
    sym a.is_pid ∙ ap (λ (l : LockFile). l.pid) same ∙ b.is_pid

lock_of-IsNamed :
    (host now command : String) (pid : ℕ)
    → IsNamed host (some (lock_of (options_of host pid) now command)) pid
unfolding lock_of
lock_of-IsNamed host now command pid = record {
  lock = lock_of (options_of host pid) now command;
  is_file = refl;
  is_pid = refl;
  is_host = refl;
}

-- With no other looking, one that is about to write is the one that looked.
looks_itself :
    (m : Machine) (pid p : ℕ) → NoneLooking m → with_phase m.phase pid looked p ≡ looked → p ≡ pid
looks_itself m pid p quiet e = elim (Bool-cases (eqb p pid)) [
  | inl q ↦ ground arith
  | inr q ↦ elim (quiet p (rw q at e)) [ ]
]

-- After the write none is about to.
none_writes :
    (host : String) (m : Machine) (pid p : ℕ)
    → IsExclusive host m
    → m.phase pid ≡ looked
    → with_phase m.phase pid holding p ≡ looked
    → ⊥
none_writes host m pid p h l e =
    let (was, apart) = kept_phase m.phase pid p holding looked (λ q. cc) e in
    let same = h.alone p pid was l in ground arith

none_owns : (b : Bool) → (b ≡ true → ⊥) → b ≡ false
none_owns true h = elim (h refl) [ ]
none_owns false h = refl

Step-IsExclusive :
    (host : String) (m n : Machine)
    → Step host NoneLooking m n
    → IsExclusive host m
    → IsExclusive host n
Step-IsExclusive host _ _ (starts m pid e) h =
    elsewhere-IsExclusive host m pid idle (λ q. cc) refl h
Step-IsExclusive host _ _ (dies m pid) h = elsewhere-IsExclusive host m pid dead (λ q. cc) refl h
Step-IsExclusive host _ _ (looks m pid _ quiet ok) h = record {
  named = λ p e. h.named p (kept_owner m.phase pid p looked refl e).0;
  free = λ p _ q.
      still_free m.phase pid q looked refl
        (none_owns (owns (m.phase q)) (λ f. refusal_of-named host m pid q (h.named q f) f ok));
  alone = λ p q e f. looks_itself m pid p quiet e ∙ sym (looks_itself m pid q quiet f);
}
Step-IsExclusive host _ _ (writes m pid now command l) h = record {
  named = λ p e. elim (Bool-cases (eqb p pid)) [
    | inl q ↦
        let same : pid ≡ p = ground arith in
        subst (λ r. IsNamed host (some (lock_of (options_of host pid) now command)) r) same
          (lock_of-IsNamed host now command pid)
    | inr q ↦ absurd (cc (h.free pid l p, rw q at e))
  ];
  free = λ p e q. elim (none_writes host m pid p h l e) [ ];
  alone = λ p q e f. elim (none_writes host m pid p h l e) [ ];
}
Step-IsExclusive host _ _ (finds_own m pid e own) h = record {
  named = λ p f. elim (Bool-cases (eqb p pid)) [
    | inl q ↦
        let same : pid ≡ p = ground arith in
        subst (λ r. IsNamed host m.file r) same (h.named pid (rw e refl))
    | inr q ↦ h.named p (rw q at f)
  ];
  free = λ p f q.
      absurd (cc (e, h.free p (kept_phase m.phase pid p releasing looked (λ q. cc) f).0 pid));
  alone = λ p q f g.
      h.alone p q (kept_phase m.phase pid p releasing looked (λ q. cc) f).0
        (kept_phase m.phase pid q releasing looked (λ q. cc) g).0;
}
Step-IsExclusive host _ _ (finds_other m pid e other) h =
    elsewhere-IsExclusive host m pid idle (λ q. cc) refl h
Step-IsExclusive host _ _ (removes m pid e) h = record {
  named = λ p f.
      let (was, apart) = kept_owner m.phase pid p idle refl f in
      let same : p ≡ pid =
        IsNamed-unique host m.file p pid (h.named p was) (h.named pid (rw e refl)) in
      absurd (ground arith);
  free = λ p f q.
      still_free m.phase pid q idle refl
        (h.free p (kept_phase m.phase pid p idle looked (λ q. cc) f).0 q);
  alone = λ p q f g.
      h.alone p q (kept_phase m.phase pid p idle looked (λ q. cc) f).0
        (kept_phase m.phase pid q idle looked (λ q. cc) g).0;
}

reached-IsExclusive :
    (host : String) (m : Machine) → Reached host NoneLooking m → IsExclusive host m
reached-IsExclusive host _ (at_first file) = record {
  named = λ p e. cc;
  free = λ p e q. refl;
  alone = λ p q e f. cc;
}
reached-IsExclusive host _ (after m n r s) =
    Step-IsExclusive host m n s (reached-IsExclusive host m r)

-- When no process looks at the file while another is between its look and its write, no two live
-- processes of the machine hold the lock at once, whatever starts, dies, takes over a stale lock or
-- releases.
pub held_once :
    (host : String) (m : Machine) (p q : ℕ)
    → Reached host NoneLooking m
    → m.phase p ≡ holding
    → m.phase q ≡ holding
    → p ≡ q
held_once host m p q r e f =
    let h = reached-IsExclusive host m r in
    IsNamed-unique host m.file p q (h.named p (rw e refl)) (h.named q (rw f refl))

-- The source lets a process look at any time, and then two live processes of one machine can hold
-- the lock at once: both look at a free file before either writes.
pub two_hold :
    (host : String) (p q : ℕ)
    → p ≢ q
    → (m : Machine) × Reached host (λ _. Unit) m × (m.phase p ≡ holding) × (m.phase q ≡ holding)
unfolding refusal_of
two_hold host p q ne =
    let pp : eqb p p ≡ true = ground arith in
    let qq : eqb q q ≡ true = ground arith in
    let pq : eqb p q ≡ false = ground arith in
    let qp : eqb q p ≡ false = ground arith in
    let start : Reached host (λ _. Unit) (record { file = none; phase = λ _. dead }) =
      at_first none in
    let p_starts = after _ _ start (starts _ p refl) in
    let q_starts = after _ _ p_starts (starts _ q (rw qp refl)) in
    let p_looks = after _ _ q_starts (looks _ p (rw (pq, pp) refl) tt refl) in
    let q_looks = after _ _ p_looks (looks _ q (rw (qp, qq) refl) tt refl) in
    let p_writes = after _ _ q_looks (writes _ p "" "" (rw (pq, pp) refl)) in
    (_, after _ _ p_writes (writes _ q "" "" (rw (qp, qq) refl)), rw (pq, pp) refl, rw qq refl)
