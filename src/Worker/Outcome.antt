-- ===== src/Worker/Outcome.antt =====
-- integration/session.py: what becomes of each job in a round of the loop of `process_jobs`.
use cognikernel.Prelude.{
  ℕ, ◌+◌, ◌≤◌, ◌≡◌, ◌⊎◌, refl, ◌∙◌, String, true, false, Option, some, List, arith, Result, ok, err,
  ◌==◌, str_eq, leb, update_where, find_key-key, find_key-update_where, Bool-cases, inl, inr,
  eq_self,
}
use cognikernel.Jobs.Row.{
  Job, JobStore, completed, dead_lettered, is_terminal, is_claimable, is_stage,
  is_valid_failure_class, is_non_retryable,
}
use cognikernel.Jobs.Queue.{
  is_candidate, is_unclaimed, claim_row, claim_update, ack_row, ack_stage, fail_row, failed_state,
  fail_job,
}
use cognikernel.Jobs.Claims.{candidate-claimable}
use cognikernel.Jobs.Calls.{or_before}
use cognikernel.Jobs.Changes.{find_job}
use cognikernel.Jobs.Validity.{key}
use cognikernel.Events.Row.{Event}
use cognikernel.Evidence.Cursors.{IngestCursor}
use cognikernel.Worker.{
  Store, Block, Setting, Summary, transcript_category, continue_with, ◌>>=◌, extract_job, cursor_at,
  reading, on_jobs, merging, advancing, run_job, after_job, do_job, write_jobs,
}
use cognikernel.Worker.Blocks.{Keeps, Keeps-on_jobs}
use cognikernel.Worker.Body.{ack_stage-jobs}

-- the job has a row, of which `P` holds
abbrev pub HasRow : (Job → Type 0) → ℕ → JobStore → Type 0
HasRow P i s = (r : Job) × (find_job i s ≡ some r) × P r

-- The job is completed, or has failed as often as it may.
abbrev pub IsDone : Job → Type 0
IsDone r = (r.state ≡ completed) ⊎ ((r.state ≡ dead_lettered) × (r.max_attempts ≤ r.attempts))

abbrev pub IsOpenOrDone : Job → Type 0
IsOpenOrDone r = (is_candidate transcript_category r ≡ true) ⊎ IsDone r

-- a worker has it
abbrev pub IsWorking : Job → Type 0
IsWorking r = (is_terminal r.state ≡ false) × (str_eq r.job_category transcript_category ≡ true)

-- an UPDATE by the primary key, of that row
updated :
    (f : Job → Job) (i : ℕ) (s : JobStore) (r : Job)
    → ((j : Job) → key (f j) ≡ key j)
    → find_job i s ≡ some r
    → find_job i (record s { jobs = update_where (λ j. j.id == i) f s.jobs }) ≡ some (f r)
updated f i s r keep e =
    let picked : (r.id == i) ≡ true = rw (find_key-key key i s.jobs r e) (eq_self i) in
    find_key-update_where key (λ j. j.id == i) f i s.jobs keep ∙ rw (e, picked)

ack_row-key : (stage : String) (now : ℕ) (j : Job) → key (ack_row stage now j) ≡ key j
unfolding ack_row
ack_row-key stage now j = refl

fail_row-key :
    (class message : String) (n max now : ℕ) (j : Job)
    → key (fail_row class message n max now j) ≡ key j
unfolding fail_row
fail_row-key class message n max now j = refl

ack_row-IsWorking :
    (stage : String) (now : ℕ) (r : Job)
    → str_eq stage "COMPLETED" ≡ false
    → IsWorking r
    → IsWorking (ack_row stage now r)
unfolding ack_row is_terminal
ack_row-IsWorking stage now r other h = rw other (refl, h.1)

module _ (i : ℕ) where
  ack_stage-IsWorking :
      (stage : String) (ref : Option String) (now : ℕ) (s : JobStore)
      → str_eq stage "COMPLETED" ≡ false
      → HasRow IsWorking i s
      → HasRow IsWorking i (or_before s (ack_stage i stage ref now s))
  ack_stage-IsWorking stage ref now s other (r, e, h) = elim (ack_stage-jobs i stage ref now s) [
    | inl same ↦ (r, rw same e, h)
    | inr same ↦ (
      ack_row stage now r,
      rw same (updated (ack_row stage now) i s r (ack_row-key stage now) e),
      ack_row-IsWorking stage now r other h,
    )
  ]

  -- the last acknowledgement
  completed-IsDone :
      (ref : Option String) (now : ℕ) (s s' : JobStore)
      → HasRow IsWorking i s
      → ack_stage i "COMPLETED" ref now s ≡ ok s'
      → HasRow IsDone i s'
  unfolding ack_stage
  completed-IsDone ref now s s' (r, e, h) done =
      let row = updated (ack_row "COMPLETED" now) i s r (ack_row-key "COMPLETED" now) e in
      let stage : is_stage "COMPLETED" ≡ true = unfold is_stage in refl in
      let wrote : s'.jobs ≡ update_where (λ j. j.id == i) (ack_row "COMPLETED" now) s.jobs =
        let d = rw (e, h.0, stage, ack_stage) at done in ground arith in
      (ack_row "COMPLETED" now r, rw wrote row, inl (unfold ack_row in refl))

  failed_state-IsOpenOrDone :
      (message : String) (now : ℕ) (r : Job)
      → IsWorking r
      → IsOpenOrDone (fail_row "EXTRACTOR_BUG" message (r.attempts + 1) r.max_attempts now r)
  unfolding fail_row failed_state is_candidate is_claimable is_non_retryable
  failed_state-IsOpenOrDone message now r h =
      elim (Bool-cases (leb r.max_attempts (r.attempts + 1))) [
        | inl t ↦ rw t (inr (inr (refl, ground arith)))
        | inr t ↦ rw t (inl (rw h.1 refl))
      ]

  -- A failure of the job that a worker has.
  fail_job-IsOpenOrDone :
      (message : String) (now : ℕ) (s : JobStore)
      → HasRow IsWorking i s
      → HasRow IsOpenOrDone i (or_before s (fail_job i "EXTRACTOR_BUG" message now s))
  unfolding fail_job
  fail_job-IsOpenOrDone message now s (r, e, h) =
      let known : is_valid_failure_class "EXTRACTOR_BUG" ≡ true =
        unfold is_valid_failure_class is_non_retryable in refl in
      let f = fail_row "EXTRACTOR_BUG" message (r.attempts + 1) r.max_attempts now in
      (
        f r,
        rw (known, e, h.0, fail_job, or_before)
            (updated f i s r
              (fail_row-key "EXTRACTOR_BUG" message (r.attempts + 1) r.max_attempts now) e),
        failed_state-IsOpenOrDone message now r h,
      )

-- A block that starts from `P` ends in `Q`, or raises and leaves `P`.
abbrev IsEnd : {S A : Type 0} → (S → Type 0) → (S → Type 0) → S × Result A → Type 0
IsEnd P Q (s, ok x) = Q s
IsEnd P Q (s, err raised) = P s

record Ends {S A : Type 0} (P Q : S → Type 0) (m : Block S A) : Type 0 where
  ends : (s : S) → P s → IsEnd P Q (m s)

module _ {W Blob : Type 0} (P Q : Store W Blob → Type 0) where
  Ends-then :
      {A B : Type 0} (m : Block (Store W Blob) A) (rest : A → Block (Store W Blob) B)
      → Keeps P m
      → ((x : A) → Ends P Q (rest x))
      → Ends P Q (m >>= rest)
  Ends-then {A} {B} m rest h k = record { ends = λ s p. go (m s) (h.kept s p) }
    where
      go : (r : Store W Blob × Result A) → P r.0 → IsEnd P Q (continue_with rest r)
      go (s', ok x) q = (k x).ends s' q
      go (s', err raised) q = q

module _ {W Blob : Type 0} (c : Setting W Blob) (job : Job) where
  abbrev Working : Store W Blob → Type 0
  Working s = HasRow IsWorking job.id s.jobs

  abbrev Done : Store W Blob → Type 0
  Done s = HasRow IsDone job.id s.jobs

  reading-Working : {A : Type 0} (f : Store W Blob → Result A) → Keeps Working (reading c f)
  unfolding reading
  reading-Working f = record { kept = λ s h. h }

  acking-Working :
      (stage : String) (ref : Option String) (now : ℕ)
      → str_eq stage "COMPLETED" ≡ false
      → Keeps Working (on_jobs c (ack_stage job.id stage ref now))
  acking-Working stage ref now other =
      Keeps-on_jobs Working c (ack_stage job.id stage ref now)
        (λ s. ack_stage-IsWorking job.id stage ref now s.jobs other)

  merging-Working : (now : ℕ) (events : List (Event W)) → Keeps Working (merging c now job events)
  unfolding merging
  merging-Working now events = record { kept = λ s h. h }

  advancing-Working : (new : IngestCursor) → Keeps Working (advancing c new)
  unfolding advancing
  advancing-Working new = record { kept = λ s h. h }

  completing :
      (ref : Option String) (now : ℕ)
      → Ends Working Done (on_jobs c (ack_stage job.id "COMPLETED" ref now))
  unfolding on_jobs
  completing ref now = record {
    ends = λ s h. go s h (ack_stage job.id "COMPLETED" ref now s.jobs) refl;
  }
    where
      go :
          (s : Store W Blob)
          → Working s
          → (r : Result JobStore) → ack_stage job.id "COMPLETED" ref now s.jobs ≡ r
          → IsEnd Working Done (write_jobs c r s)
      go s h (ok jobs) e = completed-IsDone job.id ref now s.jobs jobs h e
      go s h (err raised) e = h

  run_job-Ends : (now : ℕ → ℕ) → Ends Working Done (run_job c now job)
  unfolding run_job
  run_job-Ends now = Ends-then Working Done _ _ (reading-Working (extract_job c job)) λ x.
      Ends-then Working Done _ _ (acking-Working "PARSED" _ (now 1) refl) λ _.
        Ends-then Working Done _ _ (acking-Working "CLASSIFIED" _ (now 2) refl) λ _.
          Ends-then Working Done _ _ (merging-Working (now 3) x.0) λ stats.
            Ends-then Working Done _ _ (acking-Working "MERGED" _ (now 4) refl) λ _.
              Ends-then Working Done _ _ (advancing-Working (cursor_at c job x.1 x.2 (now 5))) λ _.
                Ends-then Working Done _ _
                  (acking-Working "PROJECTED" (some "projection:invalidated") (now 6) refl)
                  λ _. completing (some "process_jobs") (now 7)

  -- a round leaves its job completed, waiting again, or dead
  pub do_job-IsOpenOrDone :
      (now : ℕ → ℕ) (st : Summary) (s : Store W Blob)
      → Working s
      → HasRow IsOpenOrDone job.id (do_job c now job st s).0.jobs
  unfolding do_job
  do_job-IsOpenOrDone now st s h = go (run_job c now job s) ((run_job-Ends now).ends s h)
    where
      go :
          (r : Store W Blob × Result (Unit {0}))
          → IsEnd Working Done r
          → HasRow IsOpenOrDone job.id (after_job c (now 8) job st r).0.jobs
      go (s', ok _) (r, e, d) = unfold after_job in (r, e, inr d)
      go (s', err raised) k =
          unfold after_job in
          fail_job-IsOpenOrDone job.id (c.describe_error raised) (now 8) s'.jobs k

-- the claim of a job that waits
pub claim_update-IsWorking :
    (now : ℕ) (who : String) (s : JobStore) (row : Job)
    → find_job row.id s ≡ some row
    → is_candidate transcript_category row ≡ true
    → HasRow IsWorking row.id (claim_update now who row.id s).0
unfolding claim_update
claim_update-IsWorking now who s row e waits =
    let picked : is_unclaimed row.id row ≡ true =
      unfold is_unclaimed in
      rw (eq_self row.id) (candidate-claimable transcript_category row waits) in
    (
      claim_row now who row,
      find_key-update_where key (is_unclaimed row.id) (claim_row now who) row.id s.jobs
            (λ j. unfold claim_row in refl)
          ∙ rw (e, picked),
      (unfold claim_row is_terminal in refl, unfold is_candidate claim_row in ground arith),
    )
