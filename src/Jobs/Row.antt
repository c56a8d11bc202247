-- ===== src/Jobs/Row.antt =====
-- storage/jobs.py and storage/migrations/006_extraction_jobs.sql: the rows of the two tables of the
-- job queue, and the tests that the module and its SQL make of them.
use cognikernel.Prelude.{ℕ, String, Bool, true, false, ◌&&◌, ◌||◌, Option, List, ◌==◌, str_eq}

pub data JobState : Type 0 where
  queued claimed running partial : JobState
  retryable_failure dead_lettered skipped_policy superseded_job completed : JobState

abbrev state_code : JobState → ℕ
state_code queued = 0
state_code claimed = 1
state_code running = 2
state_code partial = 3
state_code retryable_failure = 4
state_code dead_lettered = 5
state_code skipped_policy = 6
state_code superseded_job = 7
state_code completed = 8

-- state=?
unfoldable pub same_state : JobState → JobState → Bool
same_state a b = state_code a == state_code b

-- One row of `extraction_jobs`.
pub record Job : Type 0 where
  pub id : ℕ
  pub project_id : String
  pub session_id : String
  pub evidence_id : ℕ
  pub trace_id : String
  pub job_category : String
  pub stage : String
  pub state : JobState
  pub failure_class : Option String
  pub last_error : Option String
  pub claimed_by : Option String
  pub claimed_at : Option ℕ
  pub attempts : ℕ
  pub max_attempts : ℕ
  pub soft_timeout_ms : ℕ
  pub hard_timeout_ms : ℕ
  pub created_at : ℕ
  pub updated_at : ℕ

-- One row of `extraction_job_acks`.
pub record Ack : Type 0 where
  pub job_id : ℕ
  pub stage : String
  pub completed_at : ℕ
  pub output_ref : Option String

-- The tables, the next AUTOINCREMENT id, and the ids of `raw_evidence` that the foreign key reads.
pub record JobStore : Type 0 where
  pub jobs : List Job
  pub acks : List Ack
  pub next_id : ℕ
  pub evidence_ids : List ℕ

unfoldable pub is_terminal : JobState → Bool
is_terminal completed = true
is_terminal dead_lettered = true
is_terminal skipped_policy = true
is_terminal superseded_job = true
is_terminal _ = false

-- state IN ('queued', 'retryable_failure')
unfoldable pub is_claimable : JobState → Bool
is_claimable queued = true
is_claimable retryable_failure = true
is_claimable _ = false

unfoldable pub is_claimed : JobState → Bool
is_claimed claimed = true
is_claimed _ = false

unfoldable pub is_running : JobState → Bool
is_running running = true
is_running _ = false

unfoldable pub is_dead_lettered : JobState → Bool
is_dead_lettered dead_lettered = true
is_dead_lettered _ = false

unfoldable pub is_valid_failure_class : String → Bool
is_valid_failure_class f =
    str_eq f "TRANSIENT"
    || str_eq f "POISON_INPUT"
    || str_eq f "SCHEMA_MISMATCH"
    || str_eq f "EXTRACTOR_BUG"
    || str_eq f "IO_MISSING"
    || str_eq f "TIMEOUT"

unfoldable pub is_non_retryable : String → Bool
is_non_retryable f = str_eq f "POISON_INPUT" || str_eq f "SCHEMA_MISMATCH"

-- CHECK (job_category IN …)
unfoldable pub is_job_category : String → Bool
is_job_category c =
    str_eq c "extract.transcript"
    || str_eq c "extract.git"
    || str_eq c "symbols.parse"
    || str_eq c "projection.rebuild"
    || str_eq c "hydrate.render"
    || str_eq c "lookup.answer"

-- CHECK (stage IN …)
unfoldable pub is_stage : String → Bool
is_stage s =
    str_eq s "OBSERVED"
    || str_eq s "PARSED"
    || str_eq s "CLASSIFIED"
    || str_eq s "MERGED"
    || str_eq s "PROJECTED"
    || str_eq s "INJECTED"
    || str_eq s "COMPLETED"

-- UNIQUE (project_id, session_id, evidence_id, job_category), also the WHERE of the lookup
unfoldable pub same_key : String → String → ℕ → String → Job → Bool
same_key project session evidence category j =
    str_eq j.project_id project
    && str_eq j.session_id session
    && j.evidence_id == evidence
    && str_eq j.job_category category
