-- ===== src/Worker/Drain.antt =====
-- integration/session.py: the loop of `process_jobs`, which empties the queue within the rounds that
-- its attempts need.
use cognikernel.Prelude.{
  ℕ, zero, suc, ◌≤◌, ◌≡◌, true, false, List, [], ◌∷◌, some, arith, inl, inr, ok, Bool-cases, All,
  All-map, All-both, All-select, select, select-All, find_key-All, find_key_self, ◌⊎◌, ◌==◌, ◌∙◌,
  sym, subst, eq→≡, refl, count_where-none,
}
use cognikernel.Jobs.Row.{completed, dead_lettered, Job, JobStore}
use cognikernel.Jobs.Queue.{is_candidate, claim_row, claim_update, claim_next_job}
use cognikernel.Jobs.Claims.{nothing, taken, claim_next_job-TakesOldest}
use cognikernel.Jobs.Changes.{find_job}
use cognikernel.Jobs.Listing.{list_jobs}
use cognikernel.Jobs.Calls.{reclaim, recover_orphaned, recover_stuck, replay, apply, run}
use cognikernel.Jobs.Validity.{key, IsValid, apply-IsValid, run-IsValid}
use cognikernel.Worker.{
  Store, Setting, Summary, transcript_category, is_timeout, do_job, drain, replay_timeouts,
  recover_jobs, recover, is_startup_failed, process_jobs,
}
use cognikernel.Worker.Measure.{total, total-zero, tries-pos}
use cognikernel.Worker.Outcome.{
  HasRow, IsDone, IsOpenOrDone, IsWorking, claim_update-IsWorking, do_job-IsOpenOrDone,
}
use cognikernel.Worker.Others.{claim_update-other, do_job-other}
use cognikernel.Worker.Body.{do_job-total, claim-IsHeld}

-- No job of the worker's category waits.
abbrev pub IsDrained : JobStore → Type 0
IsDrained s = All (λ j. is_candidate transcript_category j ≡ false) s.jobs

module _ {W Blob : Type 0} (c : Setting W Blob) where
  -- a round that has its job leaves fewer attempts
  round-total :
      (now : ℕ → ℕ) (st : Summary) (s : Store W Blob) (row : Job)
      → IsValid s.jobs
      → find_job row.id s.jobs ≡ some row
      → is_candidate transcript_category row ≡ true
      → claim_next_job transcript_category c.claimant (now 0) s.jobs
        ≡ ok (
          (claim_update (now 0) c.claimant row.id s.jobs).0,
          some (claim_row (now 0) c.claimant row),
        )
      → let after =
          do_job c now
            (claim_row (now 0) c.claimant row)
            st
            (record s { jobs = (claim_update (now 0) c.claimant row.id s.jobs).0 }) in
        IsValid after.0.jobs
        × (suc (total transcript_category after.0.jobs.jobs)
            ≤ total transcript_category s.jobs.jobs)
  round-total now st s row v found waiting q =
      let (n, held, fewer) =
        claim-IsHeld transcript_category c.claimant (now 0) s.jobs row v found waiting q in
      let job = claim_row (now 0) c.claimant row in
      let result =
        do_job-total c transcript_category row.attempts row.max_attempts n job now st
          (record s { jobs = (claim_update (now 0) c.claimant row.id s.jobs).0 })
          (unfold claim_row in held) in
      (result.0, omega (arith, result.1, fewer, tries-pos transcript_category row waiting))

  drain-IsDrained :
      ((n : ℕ) → c.is_out_of_time n ≡ false)
      → ((n : ℕ) → c.is_claim_locked n ≡ false)
      → (budget : ℕ) (st : Summary) (s : Store W Blob) → IsValid s.jobs
      → total transcript_category s.jobs.jobs ≤ budget
      → IsDrained (drain c budget st s).0.jobs
  unfolding drain
  drain-IsDrained time free zero st s v few =
      total-zero transcript_category s.jobs.jobs (omega (arith, few))
  drain-IsDrained time free (suc budget) st s v few =
      elim (claim_next_job-TakesOldest transcript_category c.claimant (c.clock budget 0) s.jobs v) [
        | nothing empty q ↦
            rw
              (
                time budget,
                free budget,
                q,
                count_where-none (is_candidate transcript_category) s.jobs.jobs empty,
                drain,
              )
              empty
        | taken row found waiting oldest q ↦
            let left = round-total (c.clock budget) st s row v found waiting q in
            rw (time budget, free budget, q, drain)
              (drain-IsDrained time free budget _ _ left.0 (omega (arith, left.1, few)))
      ]

  -- a round that has its job leaves every job that waits, or is done, waiting or done
  round-IsOpenOrDone :
      (now : ℕ → ℕ) (st : Summary) (s : Store W Blob) (row : Job) (i : ℕ)
      → find_job row.id s.jobs ≡ some row
      → is_candidate transcript_category row ≡ true
      → HasRow IsOpenOrDone i s.jobs
      → HasRow IsOpenOrDone i
          (do_job c now
            (claim_row (now 0) c.claimant row)
            st
            (record s { jobs = (claim_update (now 0) c.claimant row.id s.jobs).0 })).0.jobs
  round-IsOpenOrDone now st s row i found waits (r, e, h) =
      let job = claim_row (now 0) c.claimant row in
      let named : job.id ≡ row.id = unfold claim_row in refl in
      let s' : Store W Blob = record s {
        jobs = (claim_update (now 0) c.claimant row.id s.jobs).0;
      } in
      elim (Bool-cases (i == row.id))
        as (λ x. HasRow IsOpenOrDone i (do_job c now job st s').0.jobs) [
          | inl t ↦
              let working = claim_update-IsWorking (now 0) c.claimant s.jobs row found waits in
              subst (λ k. HasRow IsOpenOrDone k (do_job c now job st s').0.jobs)
                (named ∙ sym (eq→≡ i row.id t))
                (do_job-IsOpenOrDone c job now st s'
                  (subst (λ k. HasRow IsWorking k s'.jobs) (sym named) working))
          | inr t ↦
              let claimed = claim_update-other i row.id r t (now 0) c.claimant s.jobs e in
              (r, do_job-other c job i r (rw named t) now st s' claimed, h)
        ]

  drain-IsOpenOrDone :
      ((n : ℕ) → c.is_out_of_time n ≡ false)
      → ((n : ℕ) → c.is_claim_locked n ≡ false)
      → (i budget : ℕ) (st : Summary) (s : Store W Blob) → IsValid s.jobs
      → HasRow IsOpenOrDone i s.jobs
      → HasRow IsOpenOrDone i (drain c budget st s).0.jobs
  unfolding drain
  drain-IsOpenOrDone time free i zero st s v h = h
  drain-IsOpenOrDone time free i (suc budget) st s v h =
      elim (claim_next_job-TakesOldest transcript_category c.claimant (c.clock budget 0) s.jobs v) [
        | nothing empty q ↦
            rw
              (
                time budget,
                free budget,
                q,
                count_where-none (is_candidate transcript_category) s.jobs.jobs empty,
                drain,
              )
              h
        | taken row found waits oldest q ↦
            let valid = (round-total (c.clock budget) st s row v found waits q).0 in
            let next = round-IsOpenOrDone (c.clock budget) st s row i found waits h in
            rw (time budget, free budget, q, drain)
              (drain-IsOpenOrDone time free i budget _ _ valid next)
      ]

  -- once no job waits, such a job is done
  drained-IsDone :
      (i : ℕ) (s : JobStore) → IsDrained s → HasRow IsOpenOrDone i s → HasRow IsDone i s
  drained-IsDone i s none_left (r, e, inr h) = (r, e, h)
  drained-IsDone i s none_left (r, e, inl h) =
      let never = (find_key-All key _ i s.jobs r none_left e).0 in cc

  replay_timeouts-IsValid :
      (now : ℕ) (dead : List Job) (s : JobStore)
      → IsValid s
      → IsValid (replay_timeouts c now dead s).0
  unfolding replay_timeouts
  replay_timeouts-IsValid now [] s v = v
  replay_timeouts-IsValid now (j ∷ dead) s v = elim (Bool-cases (is_timeout j.failure_class)) [
    | inl t ↦ rw t (
        replay_timeouts-IsValid now dead _ (unfold apply in apply-IsValid (replay j.id now) s tt v))
    | inr t ↦ rw t (replay_timeouts-IsValid now dead s v)
  ]

  recover_jobs-IsValid : (now : ℕ → ℕ) (s : JobStore) → IsValid s → IsValid (recover_jobs c now s)
  unfolding recover_jobs apply run
  recover_jobs-IsValid now s v =
      run-IsValid
        (recover_orphaned c.pid_alive (now 0)
          ∷ reclaim c.worker_stale_after (now 1)
          ∷ recover_stuck c.worker_stale_after (now 2)
          ∷ [])
        s (tt, (tt, (tt, tt))) v

  -- A startup that opens the database leaves the queue valid.
  recover-IsValid :
      (max_jobs : ℕ) (now : ℕ → ℕ) (s : JobStore) → IsValid s → IsValid (recover c max_jobs now s).0
  unfolding recover
  recover-IsValid max_jobs now s v =
      replay_timeouts-IsValid (now 3)
        (list_jobs c.project_id (some dead_lettered) max_jobs (recover_jobs c now s))
        (recover_jobs c now s) (recover_jobs-IsValid now s v)

  -- A worker that has the lock leaves no transcript job waiting, and every transcript job that
  -- waited after the startup is then completed, or dead-lettered with its attempts spent, if the queue
  -- is valid, a startup attempt and every claim find the database open, the time budget is not spent,
  -- and `max_jobs` is at least the number of attempts that the waiting jobs have left after the startup
  -- (one at least for each). Extraction and merge may raise in any round.
  pub process_jobs-IsDrained :
      (max_jobs : ℕ) (s : Store W Blob)
      → IsValid s.jobs
      → is_startup_failed c ≡ false
      → ((n : ℕ) → c.is_out_of_time n ≡ false)
      → ((n : ℕ) → c.is_claim_locked n ≡ false)
      → total transcript_category (recover c max_jobs (c.clock max_jobs) s.jobs).0.jobs ≤ max_jobs
      → let started = (recover c max_jobs (c.clock max_jobs) s.jobs).0 in
        let left = (process_jobs c true max_jobs s).0.jobs in
        IsDrained left
        × All
            (λ j.
              (r : Job) × (find_job j.id left ≡ some r)
              × ((r.state ≡ completed)
                  ⊎ ((r.state ≡ dead_lettered) × (r.max_attempts ≤ r.attempts))))
            (select (is_candidate transcript_category) started.jobs)
  unfolding process_jobs
  process_jobs-IsDrained max_jobs s v started time free few =
      let (begun, n) = recover c max_jobs (c.clock max_jobs) s.jobs in
      let st : Summary = record { processed = 0; failed = 0; replayed = n; skipped = false } in
      let left = (drain c max_jobs st (record s { jobs = begun })).0.jobs in
      let valid = recover-IsValid max_jobs (c.clock max_jobs) s.jobs v in
      let waits = select (is_candidate transcript_category) begun.jobs in
      let empty = drain-IsDrained time free max_jobs st (record s { jobs = begun }) valid few in
      rw (started, process_jobs)
        (
          empty,
          All-map _ _ waits
              (λ j (e, w). drained-IsDone j.id left empty (
                drain-IsOpenOrDone time free j.id max_jobs st (record s { jobs = begun }) valid
                  (j, e, inl w)))
              (All-both (λ j. find_job j.id begun ≡ some j) _ waits
                (All-select _ _ begun.jobs (find_key_self key begun.jobs valid.distinct))
                (select-All _ begun.jobs)),
        )
