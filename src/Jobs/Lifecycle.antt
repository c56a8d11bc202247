-- ===== src/Jobs/Lifecycle.antt =====
-- storage/jobs.py: terminal states are final. Only `replay_dead_letter` moves a job out of
-- `dead_lettered`, and nothing moves one out of the other terminal states.
use cognikernel.Prelude.{
  ℕ, ◌≡◌, Bool, true, false, some, List, [], ◌∷◌, ◌⊎◌, inl, inr, arith, ◌==◌, sym, ◌∙◌, subst, eq→≡,
  find_key-key, ◌&&◌, All, find_key-untouched, find_key-append, Bool-cases,
}
use cognikernel.Jobs.Row.{
  Job, JobStore, is_terminal, is_claimable, is_claimed, is_running, is_dead_lettered,
}
use cognikernel.Jobs.Queue.{is_unclaimed}
use cognikernel.Jobs.Recovery.{is_stale_claim, is_stuck}
use cognikernel.Jobs.Calls.{Call, apply, run, AllowsAttempt}
use cognikernel.Jobs.Changes.{
  RowMove, claiming, acking, failing, requeue_stale, requeue_orphan, burying, replaying, Change,
  find_job, stay, write, append, burn, both, apply-Change, Replays,
}
use cognikernel.Jobs.Validity.{key, RowMove-key}

-- A live row that was read has another id than a terminal one.
other_id :
    (s : JobStore) (id i : ℕ) (row r : Job)
    → find_job id s ≡ some row
    → is_terminal row.state ≡ false
    → find_job i s ≡ some r
    → is_terminal r.state ≡ true
    → key r ≡ i
    → (r.id == id) ≡ false
other_id s id i row r e live e' t k = elim (Bool-cases (r.id == id)) [
  | inr u ↦ u
  | inl u ↦
      let same : i ≡ id = sym k ∙ eq→≡ r.id id u in
      let found : find_job i s ≡ some row = subst (λ x. find_job x s ≡ some row) (sym same) e in cc
]

not_revived :
    (R : ℕ → Type 0) (id i : ℕ) (r : Job)
    → R id
    → key r ≡ i
    → (¬ R i) ⊎ (is_dead_lettered r.state ≡ false)
    → (r.id == id && is_dead_lettered r.state) ≡ false
not_revived R id i r may k (inr d) = ground arith
not_revived R id i r may k (inl never) = elim (Bool-cases (r.id == id)) [
  | inr u ↦ ground arith
  | inl u ↦ absurd (never (subst R (sym (eq→≡ r.id id u) ∙ k) may))
]

-- No UPDATE picks a terminal row, unless it is a dead-lettered one that may be revived.
RowMove-off :
    {R : ℕ → Type 0} {s : JobStore} {p : Job → Bool} {f : Job → Job}
    → RowMove R s p f
    → (i : ℕ) (r : Job) → find_job i s ≡ some r
    → is_terminal r.state ≡ true
    → key r ≡ i
    → (¬ R i) ⊎ (is_dead_lettered r.state ≡ false)
    → p r ≡ false
unfolding is_unclaimed is_claimable is_stale_claim is_claimed is_running is_stuck is_terminal
RowMove-off (claiming id who now) i r e t k n = ground arith
RowMove-off {s} (acking id stage now row e' live) i r e t k n = other_id s id i row r e' live e t k
RowMove-off {s} (failing id class message now row e' live) i r e t k n =
    other_id s id i row r e' live e t k
RowMove-off (requeue_stale stale_after now) i r e t k n = ground arith
RowMove-off (requeue_orphan id now) i r e t k n = ground arith
RowMove-off (burying stale_after now) i r e t k n = ground arith
RowMove-off {R} (replaying id now may) i r e t k n = not_revived R id i r may k n

-- so that the row is found again, unchanged
Change-terminal :
    {R : ℕ → Type 0} {s t : JobStore}
    → Change R s t
    → (i : ℕ) (r : Job) → find_job i s ≡ some r
    → is_terminal r.state ≡ true
    → (¬ R i) ⊎ (is_dead_lettered r.state ≡ false)
    → find_job i t ≡ some r
Change-terminal (stay s) i r e t n = e
Change-terminal (write s {p} {f} acks m) i r e t n =
    find_key-untouched key p f i s.jobs r (RowMove-key m)
      (RowMove-off m i r e t (find_key-key key i s.jobs r e) n) e
Change-terminal (append s now project session evidence category trace max soft hard h) i r e t n =
    find_key-append key i s.jobs _ r e
Change-terminal (burn s) i r e t n = e
Change-terminal (both c d) i r e t n = Change-terminal d i r (Change-terminal c i r e t n) t n

abbrev pub NeverReplays : ℕ → Call → Type 0
NeverReplays i c = ¬ Replays c i

-- A job that has reached a terminal state keeps its whole row through every history of calls,
-- failing ones included, if no call of the history is a `replay_dead_letter` of that job.
pub run-terminal :
    (calls : List Call) (s : JobStore) (i : ℕ) (r : Job)
    → find_job i s ≡ some r
    → is_terminal r.state ≡ true
    → All AllowsAttempt calls
    → All (NeverReplays i) calls
    → find_job i (run calls s) ≡ some r
unfolding run
run-terminal [] s i r e t h n = e
run-terminal (c ∷ calls) s i r e t h n =
    run-terminal calls (apply c s) i r (Change-terminal (apply-Change c s h.0) i r e t (inl n.0)) t
      h.1 n.1

-- A job that is completed, skipped by policy or superseded keeps its whole row through every
-- history of calls, replays of that very job included.
pub run-completed :
    (calls : List Call) (s : JobStore) (i : ℕ) (r : Job)
    → find_job i s ≡ some r
    → is_terminal r.state ≡ true
    → is_dead_lettered r.state ≡ false
    → All AllowsAttempt calls
    → find_job i (run calls s) ≡ some r
unfolding run
run-completed [] s i r e t d h = e
run-completed (c ∷ calls) s i r e t d h =
    run-completed calls (apply c s) i r (Change-terminal (apply-Change c s h.0) i r e t (inr d)) t d
      h.1
