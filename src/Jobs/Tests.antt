-- ===== src/Jobs/Tests.antt =====
-- storage/jobs.py: a history of one project's queue, and the theorems at it.
use cognikernel.Prelude.{
  codes, ◌++◌, decimal, decimal_from, insert_sorted, sort_down, take, ◌≡◌, refl, true, false, none,
  some, List, [], ◌∷◌, arith, ok, err, integrity_error, pos, find_key, select, any, first_where,
  count_where, update_where, after_prefix, py_int, is_space,
}
use cognikernel.Jobs.Row.{
  same_state, Job, JobStore, is_terminal, is_dead_lettered, same_key, completed, queued,
  is_claimable, is_claimed, is_job_category, is_stage,
}
use cognikernel.Jobs.Queue.{
  claim_row, fresh_job, enqueue_extraction, claim_finish, claim_update, claim_next_job, fail_job,
  ack_stage, burn_id, insert_job, row_id, claim_select, get_job, oldest, insert_ack, fail_row,
  ack_row,
}
use cognikernel.Jobs.Recovery.{
  requeue_row, is_orphan, recover_orphaned_jobs, claimant_pid, recover_stuck_running_jobs,
  replay_dead_letter, reclaim_stale_jobs,
}
use cognikernel.Jobs.Calls.{Call, enqueue, claim, ack, fail, reclaim, replay, apply, run}
use cognikernel.Jobs.Changes.{find_job}
use cognikernel.Jobs.Validity.{IsSound, IsValid, run-IsValid}
use cognikernel.Jobs.Lifecycle.{run-terminal, run-completed}
use cognikernel.Jobs.Claims.{claim_finish-race, TakesOldest, claim_next_job-TakesOldest}
use cognikernel.Jobs.Enqueue.{enqueue-again}
use cognikernel.Jobs.Listing.{is_listed_job, list_jobs}
use cognikernel.Jobs.Orphans.{is_orphan-claim_row}

abbrev empty : JobStore
empty = record { jobs = []; acks = []; next_id = 1; evidence_ids = 7 ∷ 8 ∷ [] }

empty-IsValid : IsValid empty
empty-IsValid = record { below = tt; distinct = tt; sound = tt }

abbrev one_job : Job
one_job = record {
  id = 1;
  project_id = "p";
  session_id = "s";
  evidence_id = 7;
  trace_id = "t";
  job_category = "extract.transcript";
  stage = "OBSERVED";
  state = queued;
  failure_class = none;
  last_error = none;
  claimed_by = none;
  claimed_at = none;
  attempts = 0;
  max_attempts = 3;
  soft_timeout_ms = 60000;
  hard_timeout_ms = 120000;
  created_at = 100;
  updated_at = 100;
}

abbrev one : JobStore
one = record empty { jobs = one_job ∷ []; next_id = 2 }

program : Unit {0}
unfolding run apply enqueue_extraction claim_next_job claim_finish fail_job ack_stage insert_job
    fresh_job row_id claim_update claim_select get_job oldest insert_ack fail_row ack_row same_key
    requeue_row recover_orphaned_jobs is_orphan recover_stuck_running_jobs replay_dead_letter
    reclaim_stale_jobs is_terminal find_key select is_job_category any first_where count_where
    update_where is_stage after_prefix py_int is_space claimant_pid
program = tt

enqueue_one :
    enqueue_extraction 100 "p" "s" 7 "extract.transcript" "t" 3 60000 120000 empty ≡ ok (one, 1)
unfolding program
enqueue_one = refl

enqueue_unknown_evidence :
    enqueue_extraction 100 "p" "s" 9 "extract.transcript" "t" 3 60000 120000 empty
    ≡ err integrity_error
unfolding program
enqueue_unknown_evidence = refl

pid_of_worker : claimant_pid "worker-4120" ≡ some (pos 4120)
unfolding program
pid_of_worker = refl

no_pid : claimant_pid "worker-4a" ≡ none
unfolding program
no_pid = refl

abbrev finished : Job
finished = record one_job {
  stage = "COMPLETED";
  state = completed;
  updated_at = 300;
  claimed_by = some "worker-9";
  claimed_at = some 200;
}

abbrev history : List Call
history =
    enqueue 100 "p" "s" 7 "extract.transcript" "t" 3 60000 120000
    ∷ claim "extract.transcript" "worker-9" 200
    ∷ ack 1 "COMPLETED" none 300
    ∷ []

history_ends : find_job 1 (run history empty) ≡ some finished
unfolding program
history_ends = refl

run-IsValid_example : IsValid (run history empty)
run-IsValid_example = run-IsValid history empty (omega arith) empty-IsValid

abbrev later : List Call
later = fail 1 "TRANSIENT" "late" 400 ∷ reclaim 10 500 ∷ replay 2 600 ∷ []

run-terminal_example : find_job 1 (run later (run history empty)) ≡ some finished
unfolding is_terminal
run-terminal_example =
    run-terminal later (run history empty) 1 finished history_ends refl (omega arith) (omega arith)

run-completed_example : find_job 1 (run (replay 1 400 ∷ later) (run history empty)) ≡ some finished
unfolding is_terminal is_dead_lettered
run-completed_example =
    run-completed (replay 1 400 ∷ later) (run history empty) 1 finished history_ends refl refl
      (omega arith)

claim_finish-race_example :
    claim_finish 1 "worker-2" 201 (claim_update 200 "worker-1" 1 one).0
    ≡ ok ((claim_update 200 "worker-1" 1 one).0, none)
claim_finish-race_example = claim_finish-race 1 200 201 "worker-1" "worker-2" one

one_job-IsSound : IsSound one_job
unfolding is_claimable is_claimed is_terminal
one_job-IsSound = record {
  free = λ _. (refl, refl);
  owned = λ e. cc;
  allowed = omega arith;
  budget = λ _. omega arith;
  bounded = omega arith;
}

one-IsValid : IsValid one
one-IsValid = record {
  below = (omega arith, tt);
  distinct = (tt, tt);
  sound = (one_job-IsSound, tt);
}

claim_next_job-TakesOldest_example : TakesOldest "extract.transcript" "worker-1" 200 one
claim_next_job-TakesOldest_example =
    claim_next_job-TakesOldest "extract.transcript" "worker-1" 200 one one-IsValid

enqueue-again_example :
    (enqueue_extraction 900 "p" "s" 7 "extract.transcript" "u" 5 1 2 one ≡ ok (burn_id one, 1))
    × ((j : Job) × (j.id ≡ 1) × (same_key "p" "s" 7 "extract.transcript" j ≡ true))
enqueue-again_example =
    enqueue-again "p" "s" 7 "extract.transcript" 100 900 "t" "u" 3 60000 120000 5 1 2 empty one 1
      enqueue_one

lists_one : list_jobs "p" (some queued) 20 one ≡ one_job ∷ []
unfolding program list_jobs is_listed_job same_state sort_down insert_sorted take
lists_one = refl

is_orphan-claim_row_example : is_orphan (λ _. false) (claim_row 200 "worker-12" one_job) ≡ true
is_orphan-claim_row_example = is_orphan-claim_row (λ _. false) 12 200 "worker-12" one_job name
  where
    name : codes "worker-12" ≡ codes "worker-" ++ decimal 12
    name = unfold decimal decimal_from in refl
