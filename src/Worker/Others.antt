-- ===== src/Worker/Others.antt =====
-- integration/session.py: a round of the loop of `process_jobs` leaves the rows of other jobs alone.
use cognikernel.Prelude.{
  ℕ, ◌+◌, ◌≡◌, refl, String, false, Option, some, List, Result, ok, err, ◌==◌, find_key-key,
  find_key-untouched, inl, inr,
}
use cognikernel.Jobs.Row.{Job, JobStore}
use cognikernel.Jobs.Queue.{
  is_unclaimed, claim_row, claim_update, ack_row, ack_stage, fail_row, fail_job,
}
use cognikernel.Jobs.Calls.{or_before}
use cognikernel.Jobs.Changes.{find_job}
use cognikernel.Jobs.Validity.{key}
use cognikernel.Events.Row.{Event}
use cognikernel.Evidence.Cursors.{IngestCursor}
use cognikernel.Worker.{
  Store, Setting, Summary, extract_job, cursor_at, on_jobs, merging, advancing, run_job, after_job,
  do_job,
}
use cognikernel.Worker.Blocks.{Keeps, Keeps-then, Keeps-reading, Keeps-on_jobs}
use cognikernel.Worker.Body.{ack_stage-jobs, fail_job-jobs}

module _ (k id : ℕ) (r : Job) (other : (k == id) ≡ false) where
  off : (s : JobStore) → find_job k s ≡ some r → (r.id == id) ≡ false
  off s e = rw (find_key-key key k s.jobs r e) other

  ack_stage-other :
      (stage : String) (ref : Option String) (now : ℕ) (s : JobStore)
      → find_job k s ≡ some r
      → find_job k (or_before s (ack_stage id stage ref now s)) ≡ some r
  ack_stage-other stage ref now s e = elim (ack_stage-jobs id stage ref now s) [
    | inl same ↦ rw same e
    | inr same ↦ rw same (
        find_key-untouched key (λ j. j.id == id) (ack_row stage now) k s.jobs r
          (λ j. unfold ack_row in refl) (off s e) e)
  ]

  fail_job-other :
      (class message : String) (now : ℕ) (s : JobStore)
      → find_job k s ≡ some r
      → find_job k (or_before s (fail_job id class message now s)) ≡ some r
  fail_job-other class message now s e = elim (fail_job-jobs id class message now s) [
    | inl same ↦ rw same e
    | inr (row, _, same) ↦ rw same (
        find_key-untouched key (λ j. j.id == id)
          (fail_row class message (row.attempts + 1) row.max_attempts now) k s.jobs r
          (λ j. unfold fail_row in refl) (off s e) e)
  ]

  pub claim_update-other :
      (now : ℕ) (who : String) (s : JobStore)
      → find_job k s ≡ some r
      → find_job k (claim_update now who id s).0 ≡ some r
  unfolding claim_update
  claim_update-other now who s e =
      find_key-untouched key (is_unclaimed id) (claim_row now who) k s.jobs r
        (λ j. unfold claim_row in refl) (unfold is_unclaimed in rw (off s e) refl) e

module _ {W Blob : Type 0} (c : Setting W Blob) (job : Job) (k : ℕ) (r : Job)
    (other : (k == job.id) ≡ false) where
  abbrev Same : Store W Blob → Type 0
  Same s = find_job k s.jobs ≡ some r

  acking-Same :
      (stage : String) (ref : Option String) (now : ℕ)
      → Keeps Same (on_jobs c (ack_stage job.id stage ref now))
  acking-Same stage ref now =
      Keeps-on_jobs Same c (ack_stage job.id stage ref now)
        (λ s. ack_stage-other k job.id r other stage ref now s.jobs)

  merging-Same : (now : ℕ) (events : List (Event W)) → Keeps Same (merging c now job events)
  unfolding merging
  merging-Same now events = record { kept = λ s h. h }

  advancing-Same : (new : IngestCursor) → Keeps Same (advancing c new)
  unfolding advancing
  advancing-Same new = record { kept = λ s h. h }

  run_job-Same : (now : ℕ → ℕ) → Keeps Same (run_job c now job)
  unfolding run_job
  run_job-Same now = Keeps-reading Same c (extract_job c job) _ λ s x e.
      Keeps-then Same _ _ (acking-Same "PARSED" _ (now 1)) λ _.
        Keeps-then Same _ _ (acking-Same "CLASSIFIED" _ (now 2)) λ _.
          Keeps-then Same _ _ (merging-Same (now 3) x.0) λ stats.
            Keeps-then Same _ _ (acking-Same "MERGED" _ (now 4)) λ _.
              Keeps-then Same _ _ (advancing-Same (cursor_at c job x.1 x.2 (now 5))) λ _.
                Keeps-then Same _ _
                  (acking-Same "PROJECTED" (some "projection:invalidated") (now 6))
                  λ _. acking-Same "COMPLETED" (some "process_jobs") (now 7)

  pub do_job-other :
      (now : ℕ → ℕ) (st : Summary) (s : Store W Blob)
      → Same s
      → find_job k (do_job c now job st s).0.jobs ≡ some r
  unfolding do_job
  do_job-other now st s h = go (run_job c now job s) ((run_job-Same now).kept s h)
    where
      go :
          (x : Store W Blob × Result (Unit {0}))
          → Same x.0
          → find_job k (after_job c (now 8) job st x).0.jobs ≡ some r
      go (s', ok _) q = unfold after_job in q
      go (s', err raised) q =
          unfold after_job in
          fail_job-other k job.id r other "EXTRACTOR_BUG" (c.describe_error raised) (now 8) s'.jobs
            q
