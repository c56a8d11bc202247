-- ===== src/Jobs/Changes.antt =====
-- storage/jobs.py: what a call writes, row by row. Each constructor of `RowMove` is one UPDATE of
-- the module, with the checks that its caller made first.
use cognikernel.Prelude.{
  ℕ, ◌+◌, ◌<◌, String, ◌≡◌, refl, Bool, true, false, ◌&&◌, ◌||◌, Option, none, some, List, [], ◌∷◌,
  ◌++◌, inl, inr, ◌==◌, if◌then◌else◌, ok, err, Result, ◌>>=◌, Bool-cases, Option-cases, select,
  update_where, any, find_key, first_where,
}
use cognikernel.Jobs.Row.{
  Job, Ack, JobStore, is_terminal, is_claimed, is_running, is_dead_lettered, is_job_category,
  is_stage, same_key, is_valid_failure_class,
}
use cognikernel.Jobs.Queue.{
  fresh_job, burn_id, insert_job, row_id, enqueue_extraction, claim_select, is_unclaimed, claim_row,
  claim_update, get_job, claim_finish, claim_next_job, ack_row, ack_stage, fail_row, fail_job,
}
use cognikernel.Jobs.Recovery.{
  requeue_row, is_stale_claim, reclaim_stale_jobs, is_orphan, recover_each, recover_orphaned_jobs,
  is_stuck, bury_row, recover_stuck_running_jobs, replay_row, replay_dead_letter,
}
use cognikernel.Jobs.Calls.{
  Call, enqueue, claim, ack, fail, reclaim, recover_orphaned, recover_stuck, replay, first_of_pair,
  or_before, apply, AllowsAttempt,
}

abbrev pub find_job : ℕ → JobStore → Option Job
find_job i s = find_key (λ (j : Job). j.id) i s.jobs

-- `Revives` says which ids an explicit replay may name.
pub data RowMove (Revives : ℕ → Type 0) (s : JobStore) : (Job → Bool) → (Job → Job) → Type 0 where
  claiming :
      (id : ℕ) (who : String) (now : ℕ) → RowMove Revives s (is_unclaimed id) (claim_row now who)
  acking :
      (id : ℕ) (stage : String) (now : ℕ) (row : Job)
      → find_job id s ≡ some row
      → is_terminal row.state ≡ false
      → RowMove Revives s (λ j. j.id == id) (ack_row stage now)
  failing :
      (id : ℕ) (class message : String) (now : ℕ) (row : Job)
      → find_job id s ≡ some row
      → is_terminal row.state ≡ false
      → RowMove Revives s
          (λ j. j.id == id)
          (fail_row class message (row.attempts + 1) row.max_attempts now)
  requeue_stale :
      (stale_after now : ℕ) → RowMove Revives s (is_stale_claim stale_after now) (requeue_row now)
  requeue_orphan :
      (id now : ℕ)
      → RowMove Revives s
          (λ j. j.id == id && (is_claimed j.state || is_running j.state))
          (requeue_row now)
  burying : (stale_after now : ℕ) → RowMove Revives s (is_stuck stale_after now) (bury_row now)
  replaying :
      (id now : ℕ)
      → Revives id
      → RowMove Revives s (λ j. j.id == id && is_dead_lettered j.state) (replay_row now)

pub data Change (Revives : ℕ → Type 0) : JobStore → JobStore → Type 0 where
  stay : (s : JobStore) → Change Revives s s
  write :
      (s : JobStore) {p : Job → Bool} {f : Job → Job} (acks : List Ack)
      → RowMove Revives s p f
      → Change Revives s (record s { jobs = update_where p f s.jobs; acks = acks })
  append :
      (s : JobStore) (now : ℕ) (project session : String) (evidence : ℕ) (category trace : String)
      (max soft hard : ℕ)
      → 0 < max
      → Change Revives s (record s {
        jobs =
            s.jobs
            ++ fresh_job now project session evidence category trace max soft hard s.next_id ∷ [];
        next_id = s.next_id + 1;
      })
  burn : (s : JobStore) → Change Revives s (burn_id s)
  both : {s t u : JobStore} → Change Revives s t → Change Revives t u → Change Revives s u

abbrev pub Replays : Call → ℕ → Type 0
Replays (replay id _) i = id ≡ i
Replays _ i = ⊥

Change-recover_each :
    {R : ℕ → Type 0} (now : ℕ) (orphans : List Job) (s : JobStore)
    → Change R s (record s { jobs = recover_each now orphans s.jobs })
unfolding recover_each
Change-recover_each now [] s = stay s
Change-recover_each now (o ∷ orphans) s = both (write s s.acks (requeue_orphan o.id now)) (
    Change-recover_each now orphans (record s {
      jobs =
          update_where (λ j. j.id == o.id && (is_claimed j.state || is_running j.state))
            (requeue_row now) s.jobs;
    }))

module _ (P : JobStore → Type 0) (s : JobStore) (here : P s) where
  claim_result :
      (s' : JobStore) (lost : Bool) (found : Result Job)
      → P s'
      → P (first_of_pair s (if lost then ok (s', none) else (found >>= λ j. ok (s', some j))))
  claim_result s' true found h = h
  claim_result s' false (ok j) h = h
  claim_result s' false (err e) h = here

  enqueue_result :
      (inserted : Result JobStore) (id : JobStore → Result ℕ)
      → P (or_before s inserted)
      → P (first_of_pair s (inserted >>= λ s'. id s' >>= λ i. ok (s', i)))
  enqueue_result (err e) id h = here
  enqueue_result (ok s') id h = last (id s')
    where
      last : (r : Result ℕ) → P (first_of_pair s (r >>= λ i. ok (s', i)))
      last (ok i) = h
      last (err e) = here

Change-claim :
    (category who : String) (now : ℕ) (s : JobStore)
    → Change (λ _. ⊥) s (first_of_pair s (claim_next_job category who now s))
unfolding claim_next_job
Change-claim category who now s = elim (Option-cases (claim_select category s)) [
  | inl e ↦ rw (e, claim_next_job, first_of_pair) (stay s)
  | inr (row, e) ↦
      rw (e, claim_next_job, first_of_pair)
        (unfold claim_finish in
          claim_result (Change (λ _. ⊥) s) s (stay s) (claim_update now who row.id s).0
            ((claim_update now who row.id s).1 == 0)
            (get_job row.id (claim_update now who row.id s).0)
            (unfold claim_update in write s s.acks (claiming row.id who now)))
]

Change-insert :
    (now : ℕ) (project session : String) (evidence : ℕ) (category trace : String)
    (max soft hard : ℕ) (s : JobStore)
    → 0 < max
    → Change
        (λ _. ⊥)
        s
        (or_before s (
          insert_job
            (fresh_job now project session evidence category trace max soft hard s.next_id)
            s))
unfolding insert_job fresh_job
Change-insert now project session evidence category trace max soft hard s h =
    elim (Bool-cases (is_job_category category)) [
      | inr c ↦ rw (c, or_before) (burn s)
      | inl c ↦
          rw (c, or_before)
            (elim (Bool-cases (any (same_key project session evidence category) s.jobs)) [
              | inl d ↦ rw (d, or_before) (burn s)
              | inr d ↦
                  rw (d, or_before)
                    (elim (Bool-cases (any (λ e. e == evidence) s.evidence_ids)) [
                      | inl k ↦
                          rw (k, or_before)
                            (append s now project session evidence category trace max soft hard h)
                      | inr k ↦ rw (k, or_before) (stay s)
                    ])
            ])
    ]

Change-ack :
    (id : ℕ) (stage : String) (output_ref : Option String) (now : ℕ) (s : JobStore)
    → Change (λ _. ⊥) s (or_before s (ack_stage id stage output_ref now s))
unfolding ack_stage
Change-ack id stage output_ref now s = elim (Option-cases (find_job id s)) [
  | inl e ↦ rw (e, ack_stage, or_before) (stay s)
  | inr (row, e) ↦
      rw (e, ack_stage, or_before)
        (elim (Bool-cases (is_terminal row.state)) [
          | inl t ↦ rw (t, or_before) (stay s)
          | inr t ↦
              rw (t, or_before)
                (elim (Bool-cases (is_stage stage)) [
                  | inl u ↦ rw (u, or_before) (write s _ (acking id stage now row e t))
                  | inr u ↦ rw (u, or_before) (stay s)
                ])
        ])
]

Change-fail :
    (id : ℕ) (class message : String) (now : ℕ) (s : JobStore)
    → Change (λ _. ⊥) s (or_before s (fail_job id class message now s))
unfolding fail_job
Change-fail id class message now s = elim (Bool-cases (is_valid_failure_class class)) [
  | inr v ↦ rw (v, fail_job, or_before) (stay s)
  | inl v ↦
      rw (v, fail_job, or_before)
        (elim (Option-cases (find_job id s)) [
          | inl e ↦ rw (e, fail_job, or_before) (stay s)
          | inr (row, e) ↦
              rw (e, fail_job, or_before)
                (elim (Bool-cases (is_terminal row.state)) [
                  | inl t ↦ rw (t, or_before) (stay s)
                  | inr t ↦
                      rw (t, or_before) (write s s.acks (failing id class message now row e t))
                ])
        ])
]

-- Every call writes by these changes alone, and only `replay_dead_letter` revives.
pub apply-Change : (c : Call) (s : JobStore) → AllowsAttempt c → Change (Replays c) s (apply c s)
unfolding apply
apply-Change (enqueue now project session evidence category trace max soft hard) s h =
    unfold enqueue_extraction in
    enqueue_result (Change (λ _. ⊥) s) s (stay s)
      (insert_job (fresh_job now project session evidence category trace max soft hard s.next_id) s)
      (λ s'. row_id (first_where (same_key project session evidence category) s'.jobs))
      (Change-insert now project session evidence category trace max soft hard s h)
apply-Change (claim category who now) s h = Change-claim category who now s
apply-Change (ack id stage output_ref now) s h = Change-ack id stage output_ref now s
apply-Change (fail id class message now) s h = Change-fail id class message now s
apply-Change (reclaim stale_after now) s h =
    unfold reclaim_stale_jobs in write s s.acks (requeue_stale stale_after now)
apply-Change (recover_orphaned pid_alive now) s h =
    unfold recover_orphaned_jobs in Change-recover_each now (select (is_orphan pid_alive) s.jobs) s
apply-Change (recover_stuck stale_after now) s h =
    unfold recover_stuck_running_jobs in write s s.acks (burying stale_after now)
apply-Change (replay id now) s h =
    unfold replay_dead_letter in write s s.acks (replaying id now refl)
