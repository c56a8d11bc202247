-- ===== src/Jobs/Enqueue.antt =====
-- storage/jobs.py: enqueuing is idempotent on the key of a job.
use cognikernel.Prelude.{
  ℕ, ◌≡◌, refl, String, true, Option, none, some, arith, Result, ok, >>=-eq-ok, ◌>>=◌, first_where,
  any-first_where, first_where-All, All-trivial,
}
use cognikernel.Jobs.Row.{Job, JobStore, same_key}
use cognikernel.Jobs.Queue.{fresh_job, burn_id, insert_job, row_id, enqueue_extraction}

module _ (project session : String) (evidence : ℕ) (category : String) where
  -- the row that an enqueue reports
  abbrev the_row : JobStore → Option Job
  the_row s = first_where (same_key project session evidence category) s.jobs

  enqueue-inv :
      (now : ℕ) (trace : String) (max soft hard : ℕ) (s s' : JobStore) (id : ℕ)
      → enqueue_extraction now project session evidence category trace max soft hard s ≡ ok (s', id)
      → (j : Job) × (the_row s' ≡ some j) × (j.id ≡ id)
  unfolding enqueue_extraction
  enqueue-inv now trace max soft hard s s' id e =
      let j = fresh_job now project session evidence category trace max soft hard s.next_id in
      let (t, _, rest) =
        >>=-eq-ok (insert_job j s) (λ t. row_id (the_row t) >>= λ i. ok (t, i)) e in
      let (i, read, last) = >>=-eq-ok (row_id (the_row t)) (λ i. ok (t, i)) rest in
      named t i (the_row t) refl read last
    where
      named :
          (t : JobStore) (i : ℕ) (o : Option Job)
          → the_row t ≡ o
          → row_id o ≡ ok i
          → ◌≡◌ {A = Result (JobStore × ℕ)} (ok (t, i)) (ok (s', id))
          → (j : Job) × (the_row s' ≡ some j) × (j.id ≡ id)
      named t i none q r l = absurd (unfold row_id in ground arith)
      named t i (some j) q r l =
          let same : t ≡ s' = ground arith in (j, rw (← same) q, unfold row_id in ground arith)

  insert-present :
      (now : ℕ) (trace : String) (max soft hard i : ℕ) (s : JobStore) (j : Job)
      → the_row s ≡ some j
      → insert_job (fresh_job now project session evidence category trace max soft hard i) s
        ≡ ok (burn_id s)
  unfolding insert_job fresh_job
  insert-present now trace max soft hard i s j e =
      ground (arith, any-first_where (same_key project session evidence category) s.jobs j e)

  -- Once an enqueue has returned, every later enqueue of the same project, session, evidence and
  -- category returns the same id and leaves every row as it is, whatever its trace, limits and clock;
  -- it only uses up an AUTOINCREMENT id. The returned id is that of a row with this key.
  pub enqueue-again :
      (now now' : ℕ) (trace trace' : String) (max soft hard max' soft' hard' : ℕ) (s s' : JobStore)
      (id : ℕ)
      → enqueue_extraction now project session evidence category trace max soft hard s ≡ ok (s', id)
      → (enqueue_extraction now' project session evidence category trace' max' soft' hard' s'
          ≡ ok (burn_id s', id))
        × ((j : Job) × (j.id ≡ id) × (same_key project session evidence category j ≡ true))
  enqueue-again now now' trace trace' max soft hard max' soft' hard' s s' id e =
      let (j, found, named) = enqueue-inv now trace max soft hard s s' id e in
      (
        unfold enqueue_extraction row_id in
            rw (insert-present now' trace' max' soft' hard' s'.next_id s' j found, found, named),
        (
          j,
          named,
          (first_where-All (λ _. Unit {0}) _ s'.jobs j
              (All-trivial (λ _. Unit {0}) s'.jobs (λ _. tt)) found).1,
        ),
      )
