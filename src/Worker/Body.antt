-- ===== src/Worker/Body.antt =====
-- integration/session.py: what the `try` block of a round, and its `except`, leave of the queue.
use cognikernel.Prelude.{
  ℕ, suc, ◌+◌, ◌-◌, ◌≤◌, ◌≡◌, ◌⊎◌, refl, subst, String, true, Option, some, List, arith, Result, ok,
  err, ◌==◌, All, All-map, All-both, All-update_where, update_where, find_key_unique, find_key-key,
  Option-cases, Bool-cases, inl, inr, eq_self,
}
use cognikernel.Jobs.Row.{Job, JobStore, is_terminal, is_stage, is_valid_failure_class}
use cognikernel.Jobs.Queue.{
  is_candidate, is_unclaimed, claim_row, claim_update, claim_next_job, ack_row, ack_stage, fail_row,
  fail_job,
}
use cognikernel.Jobs.Claims.{candidate-claimable}
use cognikernel.Jobs.Calls.{apply, claim, ack, fail, or_before}
use cognikernel.Jobs.Changes.{find_job}
use cognikernel.Jobs.Validity.{key, IsValid, apply-IsValid}
use cognikernel.Events.Row.{Event}
use cognikernel.Evidence.Cursors.{IngestCursor}
use cognikernel.Worker.{
  Store, Setting, Summary, extract_job, cursor_at, on_jobs, merging, advancing, run_job, after_job,
  do_job,
}
use cognikernel.Worker.Blocks.{Keeps, Keeps-then, Keeps-reading, Keeps-on_jobs}
use cognikernel.Worker.Measure.{
  tries, total, total-kept, total-raised, total-dropped, tries-claim_row, tries-ack_row,
  tries-fail_row,
}

-- The rows after a call that may raise: as they were, or as its UPDATE leaves them.
pub ack_stage-jobs :
    (id : ℕ) (stage : String) (ref : Option String) (now : ℕ) (s : JobStore)
    → ((or_before s (ack_stage id stage ref now s)).jobs ≡ s.jobs)
      ⊎ ((or_before s (ack_stage id stage ref now s)).jobs
          ≡ update_where (λ j. j.id == id) (ack_row stage now) s.jobs)
unfolding ack_stage
ack_stage-jobs id stage ref now s = elim (Option-cases (find_job id s)) [
  | inl e ↦ rw (e, or_before) (inl refl)
  | inr (row, e) ↦ elim (Bool-cases (is_terminal row.state)) [
    | inl t ↦ rw (e, t, or_before) (inl refl)
    | inr t ↦ elim (Bool-cases (is_stage stage)) [
      | inl u ↦ rw (e, t, u, or_before) (inr refl)
      | inr u ↦ rw (e, t, u, or_before) (inl refl)
    ]
  ]
]

pub fail_job-jobs :
    (id : ℕ) (class message : String) (now : ℕ) (s : JobStore)
    → ((or_before s (fail_job id class message now s)).jobs ≡ s.jobs)
      ⊎ ((row : Job) × (find_job id s ≡ some row)
          × ((or_before s (fail_job id class message now s)).jobs
              ≡ update_where
                  (λ j. j.id == id)
                  (fail_row class message (row.attempts + 1) row.max_attempts now)
                  s.jobs))
unfolding fail_job
fail_job-jobs id class message now s = elim (Bool-cases (is_valid_failure_class class)) [
  | inr v ↦ rw (v, or_before) (inl refl)
  | inl v ↦ elim (Option-cases (find_job id s)) [
    | inl e ↦ rw (v, e, or_before) (inl refl)
    | inr (row, e) ↦ elim (Bool-cases (is_terminal row.state)) [
      | inl t ↦ rw (v, e, t, or_before) (inl refl)
      | inr t ↦ inr (row, e, rw (v, e, t, or_before) refl)
    ]
  ]
]

module _ (category : String) (i a m n : ℕ) where
  abbrev IsTried : Job → Type 0
  IsTried j = key j ≡ i → (j.attempts ≡ a) × (j.max_attempts ≡ m)

  -- A valid queue with `n` attempts left, besides those of job `i`, which has made `a` of `m`.
  pub record IsHeld (s : JobStore) : Type 0 where
    pub valid : IsValid s
    pub few : total category s.jobs ≤ n
    pub tried : All IsTried s.jobs

  ack_stage-IsHeld :
      (id : ℕ) (stage : String) (ref : Option String) (now : ℕ) (s : JobStore)
      → IsHeld s
      → IsHeld (or_before s (ack_stage id stage ref now s))
  unfolding apply
  ack_stage-IsHeld id stage ref now s h = record {
    valid = apply-IsValid (ack id stage ref now) s tt h.valid;
    few = elim (ack_stage-jobs id stage ref now s) [
      | inl e ↦ rw e h.few
      | inr e ↦
          let kept =
            total-kept category (λ j. j.id == id) (ack_row stage now) s.jobs
              (λ j _. rw (tries-ack_row category stage now j) (omega arith)) in
          rw e (omega (arith, kept, h.few))
    ];
    tried = elim (ack_stage-jobs id stage ref now s) [
      | inl e ↦ rw e h.tried
      | inr e ↦ rw e (
          All-update_where IsTried (λ j. j.id == id) (ack_row stage now) s.jobs
            (λ j _ k. unfold ack_row in k) h.tried)
    ];
  }

  spent :
      (class message : String) (now : ℕ) (row : Job)
      → key row ≡ i
      → (j : Job) → ((key j == i) ≡ true → j ≡ row) × IsTried j
      → key j ≡ i
      → tries category (fail_row class message (row.attempts + 1) row.max_attempts now j)
        ≤ m - suc a
  spent class message now row r j h q =
      let same : j ≡ row = h.0 (rw q (eq_self i)) in
      let made = subst IsTried same h.1 r in
      rw same (omega (arith, tries-fail_row category class message now row, made.0, made.1))

  -- the attempts that are left after a failure of job `i`
  fail_job-total :
      (class message : String) (now : ℕ) (s : JobStore)
      → IsHeld s
      → total category (or_before s (fail_job i class message now s)).jobs ≤ n + (m - suc a)
  fail_job-total class message now s h = elim (fail_job-jobs i class message now s) [
    | inl e ↦ rw e (omega (arith, h.few))
    | inr (row, e, q) ↦
        let alone = find_key_unique key i s.jobs row h.valid.distinct e in
        let bound =
          total-raised category (fail_row class message (row.attempts + 1) row.max_attempts now) i
            (m - suc a) s.jobs h.valid.distinct
            (All-map _ _ s.jobs (spent class message now row (find_key-key key i s.jobs row e))
              (All-both _ IsTried s.jobs alone h.tried)) in
        rw q (omega (arith, bound, h.few))
  ]

module _ {W Blob : Type 0} (c : Setting W Blob) (category : String) (a m n : ℕ) (job : Job) where
  abbrev Held : Store W Blob → Type 0
  Held s = IsHeld category job.id a m n s.jobs

  acking :
      (stage : String) (ref : Option String) (now : ℕ)
      → Keeps Held (on_jobs c (ack_stage job.id stage ref now))
  acking stage ref now =
      Keeps-on_jobs Held c (ack_stage job.id stage ref now)
        (λ s. ack_stage-IsHeld category job.id a m n job.id stage ref now s.jobs)

  merging-Held : (now : ℕ) (events : List (Event W)) → Keeps Held (merging c now job events)
  unfolding merging
  merging-Held now events = record { kept = λ s h. h }

  advancing-Held : (new : IngestCursor) → Keeps Held (advancing c new)
  unfolding advancing
  advancing-Held new = record { kept = λ s h. h }

  run_job-IsHeld : (now : ℕ → ℕ) → Keeps Held (run_job c now job)
  unfolding run_job
  run_job-IsHeld now = Keeps-reading Held c (extract_job c job) _ λ s x e.
      Keeps-then Held _ _ (acking "PARSED" _ (now 1)) λ _.
        Keeps-then Held _ _ (acking "CLASSIFIED" _ (now 2)) λ _.
          Keeps-then Held _ _ (merging-Held (now 3) x.0) λ stats.
            Keeps-then Held _ _ (acking "MERGED" _ (now 4)) λ _.
              Keeps-then Held _ _ (advancing-Held (cursor_at c job x.1 x.2 (now 5))) λ _.
                Keeps-then Held _ _ (acking "PROJECTED" (some "projection:invalidated") (now 6))
                  λ _. acking "COMPLETED" (some "process_jobs") (now 7)

  -- A job that is done, or has failed, leaves a valid queue with fewer attempts than before its claim.
  pub do_job-total :
      (now : ℕ → ℕ) (st : Summary) (s : Store W Blob)
      → Held s
      → IsValid (do_job c now job st s).0.jobs
        × (total category (do_job c now job st s).0.jobs.jobs ≤ n + (m - suc a))
  unfolding do_job
  do_job-total now st s h = go (run_job c now job s) ((run_job-IsHeld now).kept s h)
    where
      go :
          (r : Store W Blob × Result (Unit {0}))
          → Held r.0
          → IsValid (after_job c (now 8) job st r).0.jobs
            × (total category (after_job c (now 8) job st r).0.jobs.jobs ≤ n + (m - suc a))
      go (s', ok _) k = unfold after_job in (k.valid, omega (arith, k.few))
      go (s', err raised) k =
          unfold after_job apply in
          (
            apply-IsValid (fail job.id "EXTRACTOR_BUG" (c.describe_error raised) (now 8)) s'.jobs tt
                k.valid,
            fail_job-total category job.id a m n "EXTRACTOR_BUG" (c.describe_error raised) (now 8)
                s'.jobs k,
          )

-- the claim of a job, which takes its attempts out of the queue
pub claim-IsHeld :
    (category who : String) (now : ℕ) (s : JobStore) (row : Job)
    → IsValid s
    → find_job row.id s ≡ some row
    → is_candidate category row ≡ true
    → claim_next_job category who now s
      ≡ ok ((claim_update now who row.id s).0, some (claim_row now who row))
    → (n : ℕ) × IsHeld category row.id row.attempts row.max_attempts n
        (claim_update now who row.id s).0
      × (n + tries category row ≤ total category s.jobs)
claim-IsHeld category who now s row v e h q =
    let alone = find_key_unique key row.id s.jobs row v.distinct e in
    let picked : is_unclaimed row.id row ≡ true =
      unfold is_unclaimed in rw (eq_self row.id) (candidate-claimable category row h) in
    let valid : IsValid (apply (claim category who now) s) =
      apply-IsValid (claim category who now) s tt v in
    let same : apply (claim category who now) s ≡ (claim_update now who row.id s).0 =
      unfold apply in rw q refl in
    let dropped =
      total-dropped category (is_unclaimed row.id) (claim_row now who) row.id s.jobs row
        (λ j _. tries-claim_row category now who j) e picked in
    (
      total category (claim_update now who row.id s).0.jobs,
      record {
        valid = subst IsValid same valid;
        few = omega arith;
        tried =
            unfold claim_update in
            All-update_where _ (is_unclaimed row.id) (claim_row now who) s.jobs
              (λ j _ k. unfold claim_row in k)
              (All-map _ _ s.jobs
                (λ j f r. let w : j ≡ row = f (rw r (eq_self row.id)) in rw w (refl, refl)) alone);
      },
      unfold claim_update in dropped,
    )
