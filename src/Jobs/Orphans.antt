-- ===== src/Jobs/Orphans.antt =====
-- storage/jobs.py: `recover_orphaned_jobs` requeues the orphans and nothing else.
use cognikernel.Prelude.{
  ℕ, ◌≡◌, refl, Bool, ◌&&◌, ◌||◌, some, List, [], ◌∷◌, if◌then◌else◌, ℤ, pos, after_prefix, eq_self,
  codes, decimal, py_int-decimal, not, String, ◌++◌,
}
use cognikernel.Jobs.Row.{Job, is_claimed, is_running}
use cognikernel.Jobs.Queue.{claim_row}
use cognikernel.Jobs.Recovery.{claimant_pid, requeue_row, is_orphan}

abbrev is_active : Job → Bool
is_active j = is_claimed j.state || is_running j.state

abbrev recovered : ℕ → Bool → Job → Job
recovered now hit j = if hit && is_active j then requeue_row now j else j

after_prefix-append : (p s : List ℕ) → after_prefix p (p ++ s) ≡ some s
unfolding after_prefix
after_prefix-append [] s = refl
after_prefix-append (c ∷ p) s = rw (eq_self c) (after_prefix-append p s)

-- A job that a worker claimed under the name of its process is an orphan exactly if that process is
-- gone: the process id is read back from the name.
pub is_orphan-claim_row :
    (pid_alive : ℤ → Bool) (pid now : ℕ) (claimant : String) (j : Job)
    → codes claimant ≡ codes "worker-" ++ decimal pid
    → is_orphan pid_alive (claim_row now claimant j) ≡ not (pid_alive (pos pid))
unfolding is_orphan claim_row is_claimed
is_orphan-claim_row pid_alive pid now claimant j e =
    let read : claimant_pid claimant ≡ some (pos pid) =
      unfold claimant_pid in
      rw (e, after_prefix-append (codes "worker-") (decimal pid), claimant_pid)
        (py_int-decimal pid) in
    rw read refl
