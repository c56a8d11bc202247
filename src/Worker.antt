-- ===== src/Worker.antt =====
-- integration/session.py: `process_jobs`, one worker over the queue, the evidence, the events and the
-- cursors of a project. A call that raises keeps what was committed before it.
pub mod Blocks
pub mod Measure
pub mod Body
pub mod Outcome
pub mod Others
pub mod Drain
pub mod Retry
pub mod Lock
mod Tests
use cognikernel.Prelude.{
  ℕ, zero, suc, ◌+◌, String, Bool, true, false, ◌&&◌, Option, none, some, List, [], ◌∷◌, Result, ok,
  err, Error, value_error, ◌==◌, if◌then◌else◌, str_eq, count_where, length,
}
use mathlib.Core.List
use cognikernel.Jobs.Row.{dead_lettered, Job, JobStore}
use cognikernel.Jobs.Queue.{is_candidate, claim_next_job, ack_stage, fail_job}
use cognikernel.Jobs.Recovery.{
  reclaim_stale_jobs, recover_orphaned_jobs, recover_stuck_running_jobs, replay_dead_letter,
}
use cognikernel.Jobs.Listing.{list_jobs}
use cognikernel.Jobs.Calls.{or_before}
use cognikernel.Events.Row.{Event, EventStore}
use cognikernel.Evidence.Chain.{Codec, Archive, load_full_transcript}
use cognikernel.Evidence.Cursors.{
  IngestCursor, get_cursor, advance_cursor, slice_jsonl_for_extraction,
}
use cognikernel.Merge.World.{World}
use cognikernel.Merge.Gate.{GroundingContext}
use cognikernel.Merge.Run.{Stats, execute_merge}
use cognikernel.Prelude.{ℤ}

-- What a worker reads and writes of a project's database.
pub record Store (W Blob : Type 0) : Type 0 where
  pub jobs : JobStore
  pub events : EventStore W
  pub archive : Archive Blob
  pub cursors : List IngestCursor

-- A block that may raise: the store afterwards, and its result.
abbrev pub Block : Type 0 → Type 0 → Type 0
Block S A = S → S × Result A

abbrev pub continue_with : {S A B : Type 0} → (A → Block S B) → S × Result A → S × Result B
continue_with rest (s, ok a) = rest a s
continue_with rest (s, err raised) = (s, err raised)

infixl 5 ◌>>=◌
abbrev pub ◌>>=◌ : {S A B : Type 0} → Block S A → (A → Block S B) → Block S B
(m >>= rest) s = continue_with rest (m s)

-- What the worker calls and this development does not model, with the settings: the extraction of
-- the events from the new part of a transcript, the grounding context, the clock and the
-- operating system.
pub record Setting (W Blob : Type 0) : Type 0 where
  pub codec : Codec Blob
  pub world : World W
  pub embedding_enabled : Bool
  pub cross_encoder_supersession : Bool
  pub project_id : String
  pub claimant : String
  pub extract : Archive Blob → Job → List ℕ → Result (List (Event W))
  pub build_grounding_context : EventStore W → Option GroundingContext
  pub head_sha : Archive Blob → ℕ → Option String
  pub describe_stats : Stats → String
  pub describe_count : ℕ → String
  pub describe_error : Error → String
  pub pid_alive : ℤ → Bool
  pub worker_stale_after : ℕ
  -- the `k`-th reading of the clock in the round that leaves `budget` rounds
  pub clock : ℕ → ℕ → ℕ
  -- whether the database is locked throughout a startup attempt, or for the claim of a round
  pub is_startup_locked : ℕ → Bool
  pub is_claim_locked : ℕ → Bool
  -- whether the time budget is spent before that round
  pub is_out_of_time : ℕ → Bool

abbrev pub transcript_category : String
transcript_category = "extract.transcript"

pub record Summary : Type 0 where
  pub processed : ℕ
  pub failed : ℕ
  pub replayed : ℕ
  pub skipped : Bool

unfoldable pub is_timeout : Option String → Bool
is_timeout none = false
is_timeout (some f) = str_eq f "TIMEOUT"

module _ {W Blob : Type 0} (c : Setting W Blob) where
  -- a call that only reads
  unfoldable pub reading : {A : Type 0} → (Store W Blob → Result A) → Block (Store W Blob) A
  reading f s = (s, f s)

  abbrev pub write_jobs : Result JobStore → Store W Blob → Store W Blob × Result (Unit {0})
  write_jobs (ok jobs) s = (record s { jobs = jobs }, ok tt)
  write_jobs (err raised) s = (s, err raised)

  unfoldable pub on_jobs : (JobStore → Result JobStore) → Block (Store W Blob) (Unit {0})
  on_jobs f s = write_jobs (f s.jobs) s

  -- event.evidence_id = job.evidence_id and event.captured_at_sha = head_sha
  unfoldable pub stamp : ℕ → Option String → Event W → Event W
  stamp evidence_id sha e = record e { evidence_id = some evidence_id; captured_at_sha = sha }

  unfoldable pub merging : ℕ → Job → List (Event W) → Block (Store W Blob) Stats
  merging now job candidates s =
      let (events, stats) =
        execute_merge c.world c.embedding_enabled c.cross_encoder_supersession
          (c.build_grounding_context s.events) now job.session_id candidates s.events in
      (record s { events = events }, elim stats [ none ↦ err value_error | some st ↦ ok st ])

  unfoldable pub advancing : IngestCursor → Block (Store W Blob) (Unit {0})
  advancing new s = (record s { cursors = advance_cursor new s.cursors }, ok tt)

  unfoldable pub cursor_at : Job → ℕ → String → ℕ → IngestCursor
  cursor_at job count anchor now = record {
    project_id = c.project_id;
    session_id = job.session_id;
    last_line_count = count;
    anchor_sha256 = anchor;
    updated_at = now;
    last_evidence_id = some job.evidence_id;
  }

  -- the events of a job, and where the transcript then ends
  unfoldable pub extract_job : Job → Store W Blob → Result (List (Event W) × ℕ × String)
  unfolding stamp
  extract_job job s = elim (load_full_transcript c.codec s.archive job.evidence_id) [
    | err raised ↦ err raised
    | ok full ↦
        let cursor = get_cursor c.project_id job.session_id s.cursors in
        let (slice, count, anchor) = slice_jsonl_for_extraction c.codec.sha256 full cursor in
        elim (c.extract s.archive job slice) [
          | err raised ↦ err raised
          | ok events ↦
              let sha = c.head_sha s.archive job.evidence_id in
              ok (List.map (stamp job.evidence_id sha) events, count, anchor)
        ]
  ]

  -- the `try` block of a round
  unfoldable pub run_job : (ℕ → ℕ) → Job → Block (Store W Blob) (Unit {0})
  unfolding reading on_jobs merging advancing cursor_at extract_job
  run_job now job = do
    (candidates, count, anchor) ← reading (extract_job job)
    let found = some (c.describe_count (length candidates))
    _ ← on_jobs (ack_stage job.id "PARSED" found (now 1))
    _ ← on_jobs (ack_stage job.id "CLASSIFIED" found (now 2))
    stats ← merging (now 3) job candidates
    _ ← on_jobs (ack_stage job.id "MERGED" (some (c.describe_stats stats)) (now 4))
    _ ← advancing (cursor_at job count anchor (now 5))
    _ ← on_jobs (ack_stage job.id "PROJECTED" (some "projection:invalidated") (now 6))
    on_jobs (ack_stage job.id "COMPLETED" (some "process_jobs") (now 7))

  abbrev count_processed : Summary → Summary
  count_processed st = record st { processed = st.processed + 1 }

  abbrev count_failed : Summary → Summary
  count_failed st = record st { failed = st.failed + 1 }

  -- the `except` of a round, where `fail_job` may raise too
  unfoldable pub after_job :
      ℕ → Job → Summary → Store W Blob × Result (Unit {0}) → Store W Blob × Summary
  after_job now job st (s, ok _) = (s, count_processed st)
  after_job now job st (s, err raised) = (
    record s {
      jobs =
          or_before s.jobs (fail_job job.id "EXTRACTOR_BUG" (c.describe_error raised) now s.jobs);
    },
    count_failed st,
  )

  -- a round that has its job
  unfoldable pub do_job : (ℕ → ℕ) → Job → Summary → Store W Blob → Store W Blob × Summary
  unfolding run_job after_job
  do_job now job st s = after_job (now 8) job st (run_job now job s)

  -- the `while` loop, over the rounds that are left
  unfoldable pub drain : ℕ → Summary → Store W Blob → Store W Blob × Summary
  unfolding do_job is_candidate
  drain zero st s = (s, st)
  drain (suc budget) st s = elim (c.is_out_of_time budget) [
    | true ↦ (s, st)
    | false ↦ elim (c.is_claim_locked budget) [
      | true ↦ drain budget st s
      | false ↦ elim (claim_next_job transcript_category c.claimant (c.clock budget 0) s.jobs) [
        | err _ ↦ drain budget st s
        | ok claim ↦
            let s' : Store W Blob = record s { jobs = claim.0 } in
            elim claim.1 [
              | none ↦ elim (count_where (is_candidate transcript_category) claim.0.jobs == 0) [
                | true ↦ (s', st)
                | false ↦ drain budget st s'
              ]
              | some job ↦
                  let done = do_job (c.clock budget) job st s' in drain budget done.1 done.0
            ]
      ]
    ]
  ]

  -- replay of the dead letters of killed workers, and their number
  unfoldable pub replay_timeouts : ℕ → List Job → JobStore → JobStore × ℕ
  unfolding is_timeout
  replay_timeouts now [] s = (s, 0)
  replay_timeouts now (j ∷ dead) s =
      let killed = is_timeout j.failure_class in
      let rest =
        replay_timeouts now dead (if killed then (replay_dead_letter j.id now s).0 else s) in
      (rest.0, (if killed then 1 else 0) + rest.1)

  -- the three recoveries of a startup attempt
  unfoldable pub recover_jobs : (ℕ → ℕ) → JobStore → JobStore
  unfolding recover_orphaned_jobs reclaim_stale_jobs recover_stuck_running_jobs
  recover_jobs now s =
      let s1 = (recover_orphaned_jobs c.pid_alive (now 0) s).0 in
      let s2 = (reclaim_stale_jobs c.worker_stale_after (now 1) s1).0 in
      (recover_stuck_running_jobs c.worker_stale_after (now 2) s2).0

  -- what a startup attempt does once the database is open
  unfoldable pub recover : ℕ → (ℕ → ℕ) → JobStore → JobStore × ℕ
  unfolding replay_timeouts list_jobs recover_jobs
  recover max_jobs now s =
      let recovered = recover_jobs now s in
      replay_timeouts (now 3) (list_jobs c.project_id (some dead_lettered) max_jobs recovered)
        recovered

  -- the first of three attempts that opens the database
  unfoldable pub is_startup_failed : Bool
  is_startup_failed = c.is_startup_locked 0 && c.is_startup_locked 1 && c.is_startup_locked 2

  -- `process_jobs` with the lock held or not
  unfoldable pub process_jobs : Bool → ℕ → Store W Blob → Store W Blob × Summary
  unfolding drain recover is_startup_failed
  process_jobs has_lock max_jobs s = elim has_lock [
    | false ↦ (s, record { processed = 0; failed = 0; replayed = 0; skipped = true })
    | true ↦ elim is_startup_failed [
      | true ↦ (s, record { processed = 0; failed = 0; replayed = 0; skipped = false })
      | false ↦
          let started = recover max_jobs (c.clock max_jobs) s.jobs in
          drain max_jobs
            (record { processed = 0; failed = 0; replayed = started.1; skipped = false })
            (record s { jobs = started.0 })
    ]
  ]
