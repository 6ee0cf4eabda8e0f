-- ===== src/Runner/Lock.antt =====
-- tooling/local-runner/src/lock.ts: the lock of one runner per machine. The content of the lock file
-- is what `readLock` makes of it: `none` for a file that is missing or is no lock.
pub mod Exclusion
use space_elysiajs_orpc.Prelude.{
  ℕ, String, Bool, true, false, Option, none, some, List, eqb, not, ◌&&◌, ◌==◌, if◌then◌else◌, ◌≡◌,
  ◌≢◌,
}

pub record LockFile : Type 0 where
  pub pid : ℕ
  pub host : String
  pub started_at : String
  pub command : String

-- Why the lock is not taken: another machine holds it, or a process that lives.
pub data Refusal : Type 0 where
  other_host already_going : LockFile → Refusal

pub record LockOptions : Type 0 where
  pub host : String
  pub pid : ℕ

-- The tests of `acquireLock` on the lock that it read.
unfoldable pub refusal_of : (ℕ → Bool) → LockOptions → Option LockFile → Option Refusal
refusal_of is_running options none = none
refusal_of is_running options (some existing) =
    if not (existing.host == options.host)
    then some (other_host existing)
    else if is_running existing.pid
    then some (already_going existing)
    else none

-- The lock that it writes.
unfoldable pub lock_of : LockOptions → String → String → LockFile
lock_of options now command = record {
  pid = options.pid;
  host = options.host;
  started_at = now;
  command = command;
}

-- The test of `release` on the lock that it read.
unfoldable pub is_own : LockOptions → Option LockFile → Bool
is_own options none = false
is_own options (some current) = eqb current.pid options.pid && current.host == options.host

-- A whole `acquireLock` that nothing interrupts: the refusal, and the file after it.
unfoldable pub acquire_lock :
    (ℕ → Bool) → LockOptions → String → String → Option LockFile → Option Refusal × Option LockFile
unfolding refusal_of lock_of
acquire_lock is_running options now command file = elim (refusal_of is_running options file) [
  | some r ↦ (some r, file)
  | none ↦ (none, some (lock_of options now command))
]

-- The runners of one machine: each process is dead, idle, between its look at the file and its
-- write, holding the lock, or between the look at the file and its removal when it releases.
pub data Phase : Type 0 where
  dead idle looked holding releasing : Phase

abbrev pub is_alive : Phase → Bool
is_alive dead = false
is_alive idle = true
is_alive looked = true
is_alive holding = true
is_alive releasing = true

pub record Machine : Type 0 where
  pub file : Option LockFile
  pub phase : ℕ → Phase

abbrev pub with_phase : (ℕ → Phase) → ℕ → Phase → ℕ → Phase
with_phase phases pid to q = if eqb q pid then to else phases q

abbrev pub options_of : String → ℕ → LockOptions
options_of host pid = record { host = host; pid = pid }

-- One step of one process. `Quiet` says when a process may look at the file; the source always lets
-- it. The file is read in one step and written or removed in another, as `acquireLock` and `release`
-- do.
pub data Step (host : String) (Quiet : Machine → Type 0) : Machine → Machine → Type 0 where
  starts :
      (m : Machine) (pid : ℕ)
      → m.phase pid ≡ dead
      → Step host Quiet m (record { file = m.file; phase = with_phase m.phase pid idle })
  dies :
      (m : Machine) (pid : ℕ)
      → Step host Quiet m (record { file = m.file; phase = with_phase m.phase pid dead })
  looks :
      (m : Machine) (pid : ℕ)
      → m.phase pid ≡ idle
      → Quiet m
      → refusal_of (λ q. is_alive (m.phase q)) (options_of host pid) m.file ≡ none
      → Step host Quiet m (record { file = m.file; phase = with_phase m.phase pid looked })
  writes :
      (m : Machine) (pid : ℕ) (now command : String)
      → m.phase pid ≡ looked
      → Step host Quiet m (record {
        file = some (lock_of (options_of host pid) now command);
        phase = with_phase m.phase pid holding;
      })
  finds_own :
      (m : Machine) (pid : ℕ)
      → m.phase pid ≡ holding
      → is_own (options_of host pid) m.file ≡ true
      → Step host Quiet m (record { file = m.file; phase = with_phase m.phase pid releasing })
  finds_other :
      (m : Machine) (pid : ℕ)
      → m.phase pid ≡ holding
      → is_own (options_of host pid) m.file ≡ false
      → Step host Quiet m (record { file = m.file; phase = with_phase m.phase pid idle })
  removes :
      (m : Machine) (pid : ℕ)
      → m.phase pid ≡ releasing
      → Step host Quiet m (record { file = none; phase = with_phase m.phase pid idle })

-- From the file that was left behind, with no process alive.
pub data Reached (host : String) (Quiet : Machine → Type 0) : Machine → Type 0 where
  at_first :
      (file : Option LockFile) → Reached host Quiet (record { file = file; phase = λ _. dead })
  after : (m n : Machine) → Reached host Quiet m → Step host Quiet m n → Reached host Quiet n
