-- ===== src/Worker/Lock.antt =====
-- integration/session.py: the lock file that keeps one worker to a project. Its path and its
-- permissions are left out: there is one file, which a worker reads, writes and removes.
use cognikernel.Prelude.{
  ℕ, ◌+◌, ◌≤◌, length, ◌≡◌, refl, Bool, true, false, not, ◌||◌, Option, none, some, List, [], ◌∷◌,
  ltb, arith, if◌then◌else◌, ℤ, pos, py_int, decimal, py_int-decimal, inl, inr, All, any, select,
  ◌==◌, Bool-cases,
}

-- The text of the lock file, and its modification time in seconds.
pub record LockFile : Type 0 where
  pub text : List ℕ
  pub mtime : ℕ

-- 15 * 60
unfoldable pub stale_after_s : ℕ
stale_after_s = 900

module _ (pid_alive : ℤ → Bool) where
  -- whether the holder is gone; a text that is no number names no holder
  unfoldable pub is_orphaned : LockFile → Bool
  is_orphaned lock = elim (py_int lock.text) [ none ↦ false | some holder ↦ not (pid_alive holder) ]

  -- `_acquire_worker_lock` of process `pid`: the file afterwards, and whether it has the lock
  unfoldable pub acquire_worker_lock : ℕ → ℕ → Option LockFile → Option LockFile × Bool
  unfolding is_orphaned stale_after_s
  acquire_worker_lock pid now none = (some (record { text = decimal pid; mtime = now }), true)
  acquire_worker_lock pid now (some lock) =
      if is_orphaned lock || ltb (lock.mtime + stale_after_s) now
      then (some (record { text = decimal pid; mtime = now }), true)
      else (some lock, false)

-- os.utime, after each job
unfoldable pub touch : ℕ → Option LockFile → Option LockFile
touch now none = none
touch now (some lock) = some (record lock { mtime = now })

-- The lock file, and the processes that run a drain.
pub record LockState : Type 0 where
  pub file : Option LockFile
  pub working : List ℕ

unfoldable pub without : ℕ → List ℕ → List ℕ
without p = select (λ q. not (q == p))

-- No worker's lock has aged out.
abbrev pub IsFresh : ℕ → LockState → Type 0
IsFresh now s = elim s.file [
  | none ↦ Unit {0}
  | some lock ↦ ltb (lock.mtime + stale_after_s) now ≡ false
]

-- What happens to the lock, one event after another: `_acquire_worker_lock` of a process, while all
-- that work are seen alive; the touch after a job; the `finally` of a drain; a process that dies.
pub data LockStep : LockState → LockState → Type 0 where
  acquiring :
      (pid_alive : ℤ → Bool) (pid now : ℕ) (s : LockState)
      → All (λ p. pid_alive (pos p) ≡ true) s.working
      → IsFresh now s
      → LockStep s (record {
        file = (acquire_worker_lock pid_alive pid now s.file).0;
        working =
            if (acquire_worker_lock pid_alive pid now s.file).1 then pid ∷ s.working else s.working;
      })
  touching : (now : ℕ) (s : LockState) → LockStep s (record s { file = touch now s.file })
  finishing :
      (pid : ℕ) (s : LockState)
      → any (λ q. q == pid) s.working ≡ true
      → LockStep s (record { file = none; working = without pid s.working })
  dying : (pid : ℕ) (s : LockState) → LockStep s (record s { working = without pid s.working })

pub data LockRun : LockState → LockState → Type 0 where
  start : {s : LockState} → LockRun s s
  next : {s t u : LockState} → LockRun s t → LockStep t u → LockRun s u

-- the lock of the one worker, if there is one
data IsExclusive : LockState → Type 0 where
  idle : (file : Option LockFile) → IsExclusive (record { file = file; working = [] })
  held :
      (pid mtime : ℕ)
      → IsExclusive (record {
        file = some (record { text = decimal pid; mtime = mtime });
        working = pid ∷ [];
      })

LockStep-IsExclusive : {s t : LockState} → LockStep s t → IsExclusive s → IsExclusive t
unfolding acquire_worker_lock touch without select any
LockStep-IsExclusive (acquiring pid_alive pid now s live fresh) (idle none) = held pid now
LockStep-IsExclusive (acquiring pid_alive pid now s live fresh) (idle (some lock)) =
    elim (Bool-cases (is_orphaned pid_alive lock || ltb (lock.mtime + stale_after_s) now)) [
      | inl t ↦ rw t (held pid now)
      | inr t ↦ rw t (idle (some lock))
    ]
LockStep-IsExclusive (acquiring pid_alive pid now s live fresh) (held p mtime) =
    let seen : is_orphaned pid_alive (record { text = decimal p; mtime = mtime }) ≡ false =
      unfold is_orphaned in rw (py_int-decimal p, live.0, is_orphaned) refl in
    rw (seen, fresh) (held p mtime)
LockStep-IsExclusive (touching now s) (idle none) = idle none
LockStep-IsExclusive (touching now s) (idle (some lock)) = idle _
LockStep-IsExclusive (touching now s) (held p mtime) = held p now
LockStep-IsExclusive (finishing pid s h) (idle file) = idle none
LockStep-IsExclusive (finishing pid s h) (held p mtime) = elim (Bool-cases (p == pid)) [
  | inl t ↦ rw t (idle none)
  | inr t ↦ absurd (ground arith)
]
LockStep-IsExclusive (dying pid s) (idle file) = idle file
LockStep-IsExclusive (dying pid s) (held p mtime) = elim (Bool-cases (p == pid)) [
  | inl t ↦ rw t (idle _)
  | inr t ↦ rw t (held p mtime)
]

run-IsExclusive : {s t : LockState} → LockRun s t → IsExclusive s → IsExclusive t
run-IsExclusive start x = x
run-IsExclusive (next run step) x = LockStep-IsExclusive step (run-IsExclusive run x)

-- From a state where no process drains the queue, every run of acquisitions, touches, ends and deaths
-- leads to at most one process that does, if each acquisition sees the processes that work as
-- alive and finds no lock file that has aged out. Each step reads and writes the file at once.
pub LockRun-working : {s t : LockState} → LockRun s t → s.working ≡ [] → length t.working ≤ 1
LockRun-working {s} {t} run none_works = at_most_one (run-IsExclusive run (empty s none_works))
  where
    empty : (s : LockState) → s.working ≡ [] → IsExclusive s
    empty s e = rw e (idle s.file)

    at_most_one : {t : LockState} → IsExclusive t → length t.working ≤ 1
    at_most_one (idle file) = omega arith
    at_most_one (held pid mtime) = omega arith
