-- ===== src/Jobs/Calls.antt =====
-- storage/jobs.py: a history of the queue as a list of calls, in the order in which SQLite
-- serialises them. A call that raises leaves the store as it was.
use cognikernel.Prelude.{ℕ, ◌<◌, String, Option, Bool, List, [], ◌∷◌, Result, ok, err, ℤ}
use cognikernel.Jobs.Row.{JobStore}
use cognikernel.Jobs.Queue.{enqueue_extraction, claim_next_job, ack_stage, fail_job}
use cognikernel.Jobs.Recovery.{
  reclaim_stale_jobs, recover_orphaned_jobs, recover_stuck_running_jobs, replay_dead_letter,
}

pub data Call : Type 0 where
  enqueue : ℕ → String → String → ℕ → String → String → ℕ → ℕ → ℕ → Call
  claim : String → String → ℕ → Call
  ack : ℕ → String → Option String → ℕ → Call
  fail : ℕ → String → String → ℕ → Call
  reclaim : ℕ → ℕ → Call
  recover_orphaned : (ℤ → Bool) → ℕ → Call
  recover_stuck : ℕ → ℕ → Call
  replay : ℕ → ℕ → Call

abbrev pub first_of_pair {ℓ} : {A B : Type ℓ} → A → Result (A × B) → A
first_of_pair s (ok (s', _)) = s'
first_of_pair s (err _) = s

abbrev pub or_before {ℓ} : {A : Type ℓ} → A → Result A → A
or_before s (ok s') = s'
or_before s (err _) = s

unfoldable pub apply : Call → JobStore → JobStore
apply (enqueue now project session evidence category trace max soft hard) s =
    first_of_pair s (enqueue_extraction now project session evidence category trace max soft hard s)
apply (claim category claimant now) s = first_of_pair s (claim_next_job category claimant now s)
apply (ack id stage output_ref now) s = or_before s (ack_stage id stage output_ref now s)
apply (fail id failure_class message now) s = or_before s (fail_job id failure_class message now s)
apply (reclaim stale_after now) s = (reclaim_stale_jobs stale_after now s).0
apply (recover_orphaned pid_alive now) s = (recover_orphaned_jobs pid_alive now s).0
apply (recover_stuck stale_after now) s = (recover_stuck_running_jobs stale_after now s).0
apply (replay id now) s = (replay_dead_letter id now s).0

unfoldable pub run : List Call → JobStore → JobStore
run [] s = s
run (c ∷ cs) s = run cs (apply c s)

-- Jobs are enqueued with at least one attempt allowed; the default is 3.
abbrev pub AllowsAttempt : Call → Type 0
AllowsAttempt (enqueue _ _ _ _ _ _ max _ _) = 0 < max
AllowsAttempt _ = Unit
