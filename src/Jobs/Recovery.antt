-- ===== src/Jobs/Recovery.antt =====
-- storage/jobs.py: the operations that put jobs back into the queue, or bury them, after a worker
-- died. They return the row count beside the new store.
use cognikernel.Prelude.{
  ℕ, ◌+◌, String, Bool, false, not, ◌&&◌, ◌||◌, Option, none, some, List, [], ◌∷◌, ltb, ◌==◌,
  select, update_where, count_where, ℤ, codes, after_prefix, py_int,
}
use cognikernel.Jobs.Row.{
  queued, dead_lettered, Job, JobStore, is_claimed, is_running, is_dead_lettered,
}

unfoldable pub requeue_row : ℕ → Job → Job
requeue_row now j = record j {
  state = queued;
  claimed_by = none;
  claimed_at = none;
  updated_at = now;
}

-- claimed_at IS NOT NULL AND claimed_at < now - stale_after_ms; the difference may be negative
unfoldable pub is_stale_claim : ℕ → ℕ → Job → Bool
unfolding is_claimed
is_stale_claim stale_after now j =
    is_claimed j.state && (elim j.claimed_at [ none ↦ false | some t ↦ ltb (t + stale_after) now ])

unfoldable pub reclaim_stale_jobs : ℕ → ℕ → JobStore → JobStore × ℕ
unfolding requeue_row is_stale_claim
reclaim_stale_jobs stale_after now s = (
  record s { jobs = update_where (is_stale_claim stale_after now) (requeue_row now) s.jobs },
  count_where (is_stale_claim stale_after now) s.jobs,
)

-- the process id in "worker-{pid}"
unfoldable pub claimant_pid : String → Option ℤ
claimant_pid claimant = elim (after_prefix (codes "worker-") (codes claimant)) [
  | none ↦ none
  | some rest ↦ py_int rest
]

-- a claimed or running job whose claimant names a process that is gone
unfoldable pub is_orphan : (ℤ → Bool) → Job → Bool
unfolding claimant_pid is_claimed is_running
is_orphan pid_alive j = (is_claimed j.state || is_running j.state) && (elim j.claimed_by [
  | none ↦ false
  | some c ↦ elim (claimant_pid c) [ none ↦ false | some pid ↦ not (pid_alive pid) ]
])

-- The rows are read once, and each orphan among them is updated by its id.
unfoldable pub recover_each : ℕ → List Job → List Job → List Job
unfolding requeue_row
recover_each now [] jobs = jobs
recover_each now (o ∷ orphans) jobs = recover_each now orphans (
    update_where (λ j. j.id == o.id && (is_claimed j.state || is_running j.state)) (requeue_row now)
      jobs)

unfoldable pub recover_orphaned_jobs : (ℤ → Bool) → ℕ → JobStore → JobStore × ℕ
unfolding is_orphan recover_each
recover_orphaned_jobs pid_alive now s = (
  record s { jobs = recover_each now (select (is_orphan pid_alive) s.jobs) s.jobs },
  count_where (is_orphan pid_alive) s.jobs,
)

unfoldable pub is_stuck : ℕ → ℕ → Job → Bool
unfolding is_running
is_stuck stale_after now j = is_running j.state && ltb (j.updated_at + stale_after) now

unfoldable pub bury_row : ℕ → Job → Job
bury_row now j = record j {
  state = dead_lettered;
  failure_class = some "TIMEOUT";
  last_error = some "subprocess killed mid-execution; recovered by recover_stuck_running_jobs";
  updated_at = now;
}

unfoldable pub recover_stuck_running_jobs : ℕ → ℕ → JobStore → JobStore × ℕ
unfolding is_stuck bury_row
recover_stuck_running_jobs stale_after now s = (
  record s { jobs = update_where (is_stuck stale_after now) (bury_row now) s.jobs },
  count_where (is_stuck stale_after now) s.jobs,
)

unfoldable pub replay_row : ℕ → Job → Job
replay_row now j = record j {
  state = queued;
  failure_class = none;
  last_error = none;
  attempts = 0;
  claimed_by = none;
  claimed_at = none;
  updated_at = now;
}

unfoldable pub replay_dead_letter : ℕ → ℕ → JobStore → JobStore × ℕ
unfolding replay_row is_dead_lettered
replay_dead_letter id now s = (
  record s {
    jobs = update_where (λ j. j.id == id && is_dead_lettered j.state) (replay_row now) s.jobs;
  },
  id,
)
