-- ===== src/Worker/Tests.antt =====
-- integration/session.py: a project with one job, and the theorems at it.
use cognikernel.Prelude.{
  insert_sorted, sort_down, take, drop, ℕ, ◌+◌, ◌≤◌, ◌≡◌, refl, Bool, Option, true, false, none,
  some, List, [], ◌∷◌, ok, arith, All, ◌⊎◌, length, if◌then◌else◌, any, select, first_where,
  find_key, update_where, count_where, is_space, strip, lstrip, decimal_from, decimal, py_int,
}
use cognikernel.Jobs.Row.{
  same_state, is_terminal, is_claimable, is_claimed, is_running, is_stage, is_dead_lettered, queued,
  completed, dead_lettered, Job, JobStore,
}
use cognikernel.Jobs.Queue.{
  claim_row, claim_next_job, claim_finish, claim_update, claim_select, oldest, get_job, ack_stage,
  ack_row, insert_ack, fail_job, fail_row, is_candidate,
}
use cognikernel.Jobs.Recovery.{
  recover_orphaned_jobs, reclaim_stale_jobs, recover_stuck_running_jobs, replay_dead_letter,
  is_orphan,
}
use cognikernel.Jobs.Listing.{list_jobs}
use cognikernel.Jobs.Changes.{find_job}
use cognikernel.Jobs.Validity.{IsValid}
use cognikernel.Events.Row.{decision, Event, EventStore}
use cognikernel.Evidence.Lines.{is_break, extend, split_lines, has_text, lines_of, join_lines}
use cognikernel.Evidence.Cursors.{
  overlap_lines, anchor_lines, compute_anchor, is_continued, slice_jsonl_for_extraction,
  is_cursor_of, get_cursor, moved_cursor, save_cursor, advance_cursor,
}
use cognikernel.Evidence.Chain.{
  Evidence, ends_line, add_chunk, join_chunks, find_evidence, walk_chain, collect_chunks,
  load_full_transcript,
}
use cognikernel.Merge.Program.{merge_program}
use cognikernel.Merge.Run.{Stats, execute_merge}
use cognikernel.Worker.{
  Store, Setting, reading, on_jobs, stamp, merging, advancing, cursor_at, extract_job, run_job,
  after_job, do_job, drain, is_timeout, replay_timeouts, recover_jobs, recover, is_startup_failed,
  process_jobs, transcript_category,
}
use cognikernel.Worker.Measure.{tries, total}
use cognikernel.Worker.Drain.{IsDrained, process_jobs-IsDrained}
use cognikernel.Worker.Retry.{run_job-retry}
use cognikernel.Worker.Lock.{
  LockFile, LockState, LockRun, start, next, acquiring, dying, is_orphaned, acquire_worker_lock,
  without, stale_after_s, LockRun-working,
}
use cognikernel.Samples.{world, event, store}

program : Unit {0}
unfolding merge_program insert_sorted sort_down take drop any select first_where find_key
    update_where count_where is_space strip lstrip same_state is_terminal is_claimable is_claimed
    is_running is_stage is_dead_lettered claim_row claim_next_job claim_finish claim_update
    claim_select oldest get_job ack_stage ack_row insert_ack fail_job fail_row is_candidate
    recover_orphaned_jobs reclaim_stale_jobs recover_stuck_running_jobs replay_dead_letter is_orphan
    list_jobs is_break extend split_lines has_text lines_of join_lines overlap_lines anchor_lines
    compute_anchor is_continued slice_jsonl_for_extraction is_cursor_of get_cursor moved_cursor
    save_cursor advance_cursor ends_line add_chunk join_chunks find_evidence walk_chain
    collect_chunks load_full_transcript execute_merge reading on_jobs stamp merging advancing
    cursor_at extract_job run_job after_job do_job drain is_timeout replay_timeouts recover_jobs
    recover is_startup_failed process_jobs tries total
program = tt

abbrev waiting : Job
waiting = record {
  id = 1;
  project_id = "p";
  session_id = "s";
  evidence_id = 7;
  trace_id = "t";
  job_category = "extract.transcript";
  stage = "OBSERVED";
  state = queued;
  failure_class = none;
  last_error = none;
  claimed_by = none;
  claimed_at = none;
  attempts = 0;
  max_attempts = 3;
  soft_timeout_ms = 60000;
  hard_timeout_ms = 120000;
  created_at = 100;
  updated_at = 100;
}

abbrev queue : JobStore
queue = record { jobs = waiting ∷ []; acks = []; next_id = 2; evidence_ids = 7 ∷ [] }

abbrev chunk : Evidence (List ℕ)
chunk = record {
  id = 7;
  project_id = "p";
  session_id = "s";
  source_type = "transcript";
  captured_at = 10;
  content_sha256 = "digest";
  content_blob = 97 ∷ [];
  prev_evidence_id = none;
}

-- the extraction finds an event, but raises where the transcript is empty
abbrev setting : Setting ℕ (List ℕ)
setting = record {
  codec = record { compress = λ t. t; decompress = λ t. t; sha256 = λ t. "digest" };
  world = world;
  embedding_enabled = false;
  cross_encoder_supersession = false;
  project_id = "p";
  claimant = "worker-12";
  extract = λ archive job text. ok (event decision "use tabs" "h1" ∷ []);
  build_grounding_context = λ s. none;
  head_sha = λ archive id. some "abc";
  describe_stats = λ st. "stats";
  describe_count = λ n. "events";
  describe_error = λ e. "error";
  pid_alive = λ pid. false;
  worker_stale_after = 60000;
  clock = λ round k. 200 + k;
  is_startup_locked = λ n. false;
  is_claim_locked = λ n. false;
  is_out_of_time = λ n. false;
}

abbrev project : Store ℕ (List ℕ)
project = record {
  jobs = queue;
  events = store [] 1;
  archive = record { rows = chunk ∷ []; next_id = 8 };
  cursors = [];
}

counts :
    (process_jobs setting true 5 project).1
    ≡ record { processed = 1; failed = 0; replayed = 0; skipped = false }
unfolding program
counts = refl

queue-IsValid : IsValid queue
queue-IsValid = record {
  below = (omega arith, tt);
  distinct = (tt, tt);
  sound = (
    record {
      free = λ e. (refl, refl);
      owned = λ e. unfold is_claimed in cc;
      allowed = omega arith;
      budget = λ e. omega arith;
      bounded = omega arith;
    },
    tt,
  );
}

project_few :
    total "extract.transcript" (recover setting 5 (setting.clock 5) project.jobs).0.jobs ≤ 5
unfolding program
project_few = omega arith

project_starts : is_startup_failed setting ≡ false
unfolding program
project_starts = refl

process_jobs-IsDrained_example :
    let started = (recover setting 5 (setting.clock 5) project.jobs).0 in
    let left = (process_jobs setting true 5 project).0.jobs in
    IsDrained left
    × All
        (λ j.
          (r : Job) × (find_job j.id left ≡ some r)
          × ((r.state ≡ completed) ⊎ ((r.state ≡ dead_lettered) × (r.max_attempts ≤ r.attempts))))
        (select (is_candidate transcript_category) started.jobs)
process_jobs-IsDrained_example =
    process_jobs-IsDrained setting 5 project queue-IsValid project_starts (λ n. refl) (λ n. refl)
      project_few

-- the project after the merge of an attempt that then failed
abbrev found : Event ℕ
found = record (event decision "use tabs" "h1") { captured_at_sha = some "abc" }

abbrev merged : EventStore ℕ
merged = (execute_merge world false false none 203 "s" (found ∷ []) (store [] 1)).0

abbrev merged_stats : Stats
merged_stats = record {
  n_inserted = 1;
  n_updated = 0;
  n_superseded = 0;
  n_cascaded = 0;
  n_archived = 0;
  n_rejected = 0;
}

merge_returns :
    execute_merge world false false none 203 "s" (found ∷ []) (store [] 1)
    ≡ (merged, some merged_stats)
unfolding program
merge_returns = refl

run_job-retry_example :
    (run_job setting
      (λ k. 300 + k)
      (claim_row 299 "worker-13" waiting)
      (record project { events = merged })).0.events
    ≡ merged
unfolding claim_row
run_job-retry_example =
    run_job-retry setting (claim_row 299 "worker-13" waiting) 203 found [] (store [] 1) merged_stats
      (record project { events = merged }) (refl, tt) merge_returns (omega arith) (λ k. 300 + k)

-- process 12 takes the lock and dies, and process 13 finds it so
abbrev twelve : LockFile
twelve = record { text = decimal 12; mtime = 100 }

abbrev orphaned : LockState
orphaned = record { file = some twelve; working = [] }

to_orphaned : LockRun (record { file = none; working = [] }) orphaned
unfolding acquire_worker_lock without select
to_orphaned =
    next (next start (acquiring (λ p. true) 12 100 (record { file = none; working = [] }) tt tt))
      (dying 12 (record { file = some twelve; working = 12 ∷ [] }))

abbrev taken_over : Option LockFile × Bool
taken_over = acquire_worker_lock (λ p. false) 13 101 (some twelve)

takes_over : taken_over ≡ (some (record { text = decimal 13; mtime = 101 }), true)
unfolding program acquire_worker_lock is_orphaned stale_after_s decimal decimal_from py_int
takes_over = refl

LockRun-working_example : length {A = ℕ} (if taken_over.1 then 13 ∷ [] else []) ≤ 1
LockRun-working_example =
    LockRun-working
      (next to_orphaned (acquiring (λ p. false) 13 101 orphaned tt (unfold stale_after_s in refl)))
      refl
