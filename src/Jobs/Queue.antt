-- ===== src/Jobs/Queue.antt =====
-- storage/jobs.py: enqueue, claim, acknowledge and fail. An operation takes the clock reading that
-- it makes as its argument `now`, and raises before it has written anything: the id that an enqueue
-- of an unknown category burns before it raises is not counted.
use cognikernel.Prelude.{
  ℕ, ◌+◌, String, Bool, not, ◌&&◌, ◌||◌, Option, none, some, List, [], ◌∷◌, ◌++◌, ltb, leb, ◌==◌,
  if◌then◌else◌, str_eq, Result, ok, err, value_error, integrity_error, type_error, ◌>>=◌, select,
  update_where, count_where, first_where, any, find_key,
}
use cognikernel.Jobs.Row.{
  JobState, queued, claimed, running, retryable_failure, dead_lettered, completed, Job, Ack,
  JobStore, is_terminal, is_claimable, is_valid_failure_class, is_non_retryable, is_job_category,
  is_stage, same_key,
}

unfoldable pub fresh_job : ℕ → String → String → ℕ → String → String → ℕ → ℕ → ℕ → ℕ → Job
fresh_job now project session evidence category trace max soft hard id = record {
  id = id;
  project_id = project;
  session_id = session;
  evidence_id = evidence;
  trace_id = trace;
  job_category = category;
  stage = "OBSERVED";
  state = queued;
  failure_class = none;
  last_error = none;
  claimed_by = none;
  claimed_at = none;
  attempts = 0;
  max_attempts = max;
  soft_timeout_ms = soft;
  hard_timeout_ms = hard;
  created_at = now;
  updated_at = now;
}

-- an INSERT that is ignored uses up an AUTOINCREMENT id
abbrev pub burn_id : JobStore → JobStore
burn_id s = record s { next_id = s.next_id + 1 }

-- INSERT OR IGNORE: a row that breaks a CHECK or the UNIQUE constraint is skipped, one that
-- breaks the foreign key raises.
unfoldable pub insert_job : Job → JobStore → Result JobStore
insert_job j s =
    if not (is_job_category j.job_category)
    then ok (burn_id s)
    else if any (same_key j.project_id j.session_id j.evidence_id j.job_category) s.jobs
    then ok (burn_id s)
    else if any (λ e. e == j.evidence_id) s.evidence_ids
    then ok (record s { jobs = s.jobs ++ j ∷ []; next_id = s.next_id + 1 })
    else err integrity_error

-- row["id"] of a fetchone(), which raises where there is no row
unfoldable pub row_id : Option Job → Result ℕ
row_id none = err type_error
row_id (some j) = ok j.id

unfoldable pub enqueue_extraction :
    ℕ → String → String → ℕ → String → String → ℕ → ℕ → ℕ → JobStore → Result (JobStore × ℕ)
enqueue_extraction now project session evidence category trace max soft hard s = do
  s' ← insert_job (fresh_job now project session evidence category trace max soft hard s.next_id) s
  id ← row_id (first_where (same_key project session evidence category) s'.jobs)
  ok (s', id)

-- ORDER BY updated_at ASC, id ASC
unfoldable pub before : Job → Job → Bool
before a b = ltb a.updated_at b.updated_at || (a.updated_at == b.updated_at && ltb a.id b.id)

unfoldable pub earlier : Job → Option Job → Job
unfolding before
earlier j none = j
earlier j (some k) = if before k j then k else j

-- … LIMIT 1
unfoldable pub oldest : List Job → Option Job
unfolding earlier
oldest [] = none
oldest (j ∷ js) = some (earlier j (oldest js))

unfoldable pub is_candidate : String → Job → Bool
unfolding is_claimable
is_candidate category j = str_eq j.job_category category && is_claimable j.state

-- the SELECT of `claim_next_job`
unfoldable pub claim_select : String → JobStore → Option Job
unfolding oldest is_candidate
claim_select category s = oldest (select (is_candidate category) s.jobs)

-- the WHERE of its UPDATE
unfoldable pub is_unclaimed : ℕ → Job → Bool
unfolding is_claimable
is_unclaimed id j = j.id == id && is_claimable j.state

unfoldable pub claim_row : ℕ → String → Job → Job
claim_row now claimant j = record j {
  state = claimed;
  claimed_by = some claimant;
  claimed_at = some now;
  updated_at = now;
}

-- the UPDATE of `claim_next_job`, with its row count
unfoldable pub claim_update : ℕ → String → ℕ → JobStore → JobStore × ℕ
unfolding is_unclaimed claim_row
claim_update now claimant id s = (
  record s { jobs = update_where (is_unclaimed id) (claim_row now claimant) s.jobs },
  count_where (is_unclaimed id) s.jobs,
)

unfoldable pub get_job : ℕ → JobStore → Result Job
get_job id s = elim (find_key (λ (j : Job). j.id) id s.jobs) [
  | none ↦ err value_error
  | some j ↦ ok j
]

-- the part of `claim_next_job` that follows its SELECT
unfoldable pub claim_finish : ℕ → String → ℕ → JobStore → Result (JobStore × Option Job)
claim_finish id claimant now s =
    let (s', n) = claim_update now claimant id s in
    if n == 0 then ok (s', none) else (do j ← get_job id s'; ok (s', some j))

unfoldable pub claim_next_job : String → String → ℕ → JobStore → Result (JobStore × Option Job)
claim_next_job category claimant now s = elim (claim_select category s) [
  | none ↦ ok (s, none)
  | some row ↦ claim_finish row.id claimant now s
]

unfoldable pub same_ack : ℕ → String → Ack → Bool
same_ack id stage a = a.job_id == id && str_eq a.stage stage

-- INSERT OR IGNORE INTO extraction_job_acks, PRIMARY KEY (job_id, stage)
unfoldable pub insert_ack : Ack → List Ack → List Ack
unfolding same_ack
insert_ack a acks = if any (same_ack a.job_id a.stage) acks then acks else acks ++ a ∷ []

unfoldable pub ack_row : String → ℕ → Job → Job
ack_row stage now j = record j {
  stage = stage;
  state = if str_eq stage "COMPLETED" then completed else running;
  updated_at = now;
}

-- A stage that the CHECK refuses raises in the transaction, which is rolled back.
unfoldable pub ack_stage : ℕ → String → Option String → ℕ → JobStore → Result JobStore
ack_stage id stage output_ref now s = elim (find_key (λ (j : Job). j.id) id s.jobs) [
  | none ↦ err value_error
  | some row ↦
      if is_terminal row.state
      then err value_error
      else if is_stage stage
      then ok (record s {
        jobs = update_where (λ j. j.id == id) (ack_row stage now) s.jobs;
        acks =
            insert_ack
              (record { job_id = id; stage = stage; completed_at = now; output_ref = output_ref })
              s.acks;
      })
      else err integrity_error
]

-- the state of a job after failure number `attempts`
unfoldable pub failed_state : String → ℕ → ℕ → JobState
failed_state failure_class attempts max =
    if is_non_retryable failure_class || leb max attempts then dead_lettered else retryable_failure

unfoldable pub fail_row : String → String → ℕ → ℕ → ℕ → Job → Job
unfolding failed_state
fail_row failure_class message attempts max now j = record j {
  state = failed_state failure_class attempts max;
  failure_class = some failure_class;
  last_error = some message;
  attempts = attempts;
  claimed_by = none;
  claimed_at = none;
  updated_at = now;
}

unfoldable pub fail_job : ℕ → String → String → ℕ → JobStore → Result JobStore
fail_job id failure_class message now s =
    if not (is_valid_failure_class failure_class)
    then err value_error
    else (elim (find_key (λ (j : Job). j.id) id s.jobs) [
      | none ↦ err value_error
      | some row ↦
          if is_terminal row.state
          then err value_error
          else ok (record s {
            jobs =
                update_where (λ j. j.id == id)
                  (fail_row failure_class message (row.attempts + 1) row.max_attempts now) s.jobs;
          })
    ])
