-- ===== src/Jobs/Validity.antt =====
-- storage/jobs.py: the invariant of the job table. A claimable job has no claimant, a claimed one
-- has, and a job that is not terminal has an attempt left.
use cognikernel.Prelude.{
  ℕ, ◌+◌, ◌≤◌, ◌<◌, ◌≡◌, refl, Bool, true, false, none, some, List, [], ◌∷◌, arith, ◌==◌, All,
  All-append, All-update_where, All-both, All-map, All-updated, subst, sym, ◌&&◌, ◌||◌, String,
  Distinct, Distinct-update_where, Distinct-append, find_key_unique, is_some, update_where,
}
use cognikernel.Jobs.Row.{
  Job, JobStore, is_terminal, is_claimable, is_claimed, is_running, is_dead_lettered,
}
use cognikernel.Jobs.Queue.{fresh_job, is_unclaimed, claim_row, ack_row, fail_row}
use cognikernel.Jobs.Recovery.{requeue_row, is_stale_claim, is_stuck, bury_row, replay_row}
use cognikernel.Jobs.Calls.{Call, apply, run, AllowsAttempt}
use cognikernel.Jobs.Changes.{
  RowMove, claiming, acking, failing, requeue_stale, requeue_orphan, burying, replaying, Change,
  find_job, stay, write, append, burn, both, apply-Change,
}

abbrev pub key : Job → ℕ
key j = j.id

pub record IsSound (j : Job) : Type 0 where
  pub free : is_claimable j.state ≡ true → (j.claimed_by ≡ none) × (j.claimed_at ≡ none)
  pub owned :
      is_claimed j.state ≡ true → (is_some j.claimed_by ≡ true) × (is_some j.claimed_at ≡ true)
  pub allowed : 0 < j.max_attempts
  pub budget : is_terminal j.state ≡ false → j.attempts < j.max_attempts
  pub bounded : j.attempts ≤ j.max_attempts

pub record IsValid (s : JobStore) : Type 0 where
  pub below : All (λ j. key j < s.next_id) s.jobs
  pub distinct : Distinct key s.jobs
  pub sound : All IsSound s.jobs

-- No UPDATE changes an id.
pub RowMove-key :
    {R : ℕ → Type 0} {s : JobStore} {p : Job → Bool} {f : Job → Job}
    → RowMove R s p f
    → (j : Job) → key (f j) ≡ key j
unfolding claim_row ack_row fail_row requeue_row bury_row replay_row
RowMove-key (claiming id who now) j = refl
RowMove-key (acking id stage now row e t) j = refl
RowMove-key (failing id class message now row e t) j = refl
RowMove-key (requeue_stale stale_after now) j = refl
RowMove-key (requeue_orphan id now) j = refl
RowMove-key (burying stale_after now) j = refl
RowMove-key (replaying id now r) j = refl

module _ (j : Job) (h : IsSound j) where
  open h use {free, owned, allowed, budget, bounded}

  requeue_row-IsSound : (now : ℕ) → is_terminal j.state ≡ false → IsSound (requeue_row now j)
  unfolding requeue_row is_claimable is_claimed is_terminal
  requeue_row-IsSound now live = record {
    free = λ _. (refl, refl);
    owned = λ e. cc;
    allowed = allowed;
    budget = λ _. budget live;
    bounded = bounded;
  }

  claim_row-IsSound :
      (id now : ℕ) (who : String) → is_unclaimed id j ≡ true → IsSound (claim_row now who j)
  unfolding claim_row is_unclaimed is_claimable is_claimed is_terminal
  claim_row-IsSound id now who e = record {
    free = λ c. cc;
    owned = λ _. (refl, refl);
    allowed = allowed;
    budget = λ _. ground (arith, budget);
    bounded = bounded;
  }

  ack_row-IsSound :
      (stage : String) (now : ℕ) → is_terminal j.state ≡ false → IsSound (ack_row stage now j)
  unfolding ack_row is_claimable is_claimed is_terminal
  ack_row-IsSound stage now live = record {
    free = λ c. ground arith;
    owned = λ c. ground arith;
    allowed = allowed;
    budget = λ _. budget live;
    bounded = bounded;
  }

  fail_row-IsSound :
      (class message : String) (now : ℕ)
      → is_terminal j.state ≡ false
      → IsSound (fail_row class message (j.attempts + 1) j.max_attempts now j)
  unfolding fail_row is_claimable is_claimed is_terminal
  fail_row-IsSound class message now live = record {
    free = λ _. (refl, refl);
    owned = λ c. ground arith;
    allowed = allowed;
    budget = λ c. ground arith;
    bounded = omega (arith, budget live);
  }

  bury_row-IsSound : (now : ℕ) → IsSound (bury_row now j)
  unfolding bury_row is_claimable is_claimed is_terminal
  bury_row-IsSound now = record {
    free = λ c. cc;
    owned = λ c. cc;
    allowed = allowed;
    budget = λ c. cc;
    bounded = bounded;
  }

  replay_row-IsSound : (now : ℕ) → IsSound (replay_row now j)
  unfolding replay_row is_claimable is_claimed is_terminal
  replay_row-IsSound now = record {
    free = λ _. (refl, refl);
    owned = λ c. cc;
    allowed = allowed;
    budget = λ _. allowed;
    bounded = omega arith;
  }

fresh_job-IsSound :
    (now : ℕ) (project session : String) (evidence : ℕ) (category trace : String)
    (max soft hard id : ℕ)
    → 0 < max
    → IsSound (fresh_job now project session evidence category trace max soft hard id)
unfolding fresh_job is_claimed
fresh_job-IsSound now project session evidence category trace max soft hard id h = record {
  free = λ _. (refl, refl);
  owned = λ c. cc;
  allowed = h;
  budget = λ _. h;
  bounded = omega arith;
}

-- The rows that an UPDATE by id picks are the one row that was read.
update_read_row :
    (id : ℕ) (s : JobStore) (row : Job) (f : Job → Job)
    → IsValid s
    → find_job id s ≡ some row
    → (IsSound row → IsSound (f row))
    → All IsSound (update_where (λ j. j.id == id) f s.jobs)
update_read_row id s row f v e keep =
    All-updated (λ j. IsSound j × ((key j == id) ≡ true → j ≡ row)) IsSound (λ j. j.id == id) f
      s.jobs (λ j t h. subst (λ x. IsSound (f x)) (sym (h.1 t)) (keep (subst IsSound (h.1 t) h.0)))
      (λ j _ h. h.0)
      (All-both IsSound _ s.jobs v.sound (find_key_unique key id s.jobs row v.distinct e))

active-live :
    (j : Job) → (is_claimed j.state || is_running j.state) ≡ true → is_terminal j.state ≡ false
unfolding is_claimed is_running is_terminal
active-live j h = ground arith

stale-live :
    (stale_after now : ℕ) (j : Job)
    → is_stale_claim stale_after now j ≡ true
    → is_terminal j.state ≡ false
unfolding is_stale_claim is_claimed is_terminal
stale-live stale_after now j h = ground arith

and_right : (a b : Bool) → (a && b) ≡ true → b ≡ true
and_right a b h = ground arith

RowMove-IsSound :
    {R : ℕ → Type 0} {s : JobStore} {p : Job → Bool} {f : Job → Job}
    → RowMove R s p f
    → IsValid s
    → All IsSound (update_where p f s.jobs)
RowMove-IsSound {s} (claiming id who now) v =
    All-update_where IsSound (is_unclaimed id) (claim_row now who) s.jobs
      (λ j t h. claim_row-IsSound j h id now who t) v.sound
RowMove-IsSound {s} (acking id stage now row e t) v =
    update_read_row id s row (ack_row stage now) v e (λ h. ack_row-IsSound row h stage now t)
RowMove-IsSound {s} (failing id class message now row e t) v =
    update_read_row id s row (fail_row class message (row.attempts + 1) row.max_attempts now) v e
      (λ h. fail_row-IsSound row h class message now t)
RowMove-IsSound {s} (requeue_stale stale_after now) v =
    All-update_where IsSound (is_stale_claim stale_after now) (requeue_row now) s.jobs
      (λ j t h. requeue_row-IsSound j h now (stale-live stale_after now j t)) v.sound
RowMove-IsSound {s} (requeue_orphan id now) v =
    All-update_where IsSound (λ j. j.id == id && (is_claimed j.state || is_running j.state))
      (requeue_row now) s.jobs
      (λ j t h. requeue_row-IsSound j h now (active-live j (and_right _ _ t))) v.sound
RowMove-IsSound {s} (burying stale_after now) v =
    All-update_where IsSound (is_stuck stale_after now) (bury_row now) s.jobs
      (λ j t h. bury_row-IsSound j h now) v.sound
RowMove-IsSound {s} (replaying id now r) v =
    All-update_where IsSound (λ j. j.id == id && is_dead_lettered j.state) (replay_row now) s.jobs
      (λ j t h. replay_row-IsSound j h now) v.sound

pub Change-IsValid : {R : ℕ → Type 0} {s t : JobStore} → Change R s t → IsValid s → IsValid t
Change-IsValid (stay s) v = v
Change-IsValid (write s {p} {f} acks m) v = record {
  below =
      All-update_where (λ j. key j < s.next_id) p f s.jobs (λ j _ h. rw (RowMove-key m j) h)
        v.below;
  distinct = Distinct-update_where key p f s.jobs (RowMove-key m) v.distinct;
  sound = RowMove-IsSound m v;
}
Change-IsValid (append s now project session evidence category trace max soft hard h) v =
    let j = fresh_job now project session evidence category trace max soft hard s.next_id in
    let named : key j ≡ s.next_id = unfold fresh_job in refl in
    record {
      below =
          All-append (λ i. key i < s.next_id + 1) s.jobs (j ∷ [])
            (All-map (λ i. key i < s.next_id) _ s.jobs (λ i b. omega arith) v.below)
            (omega arith, tt);
      distinct =
          Distinct-append key s.jobs j
            (All-map (λ i. key i < s.next_id) _ s.jobs (λ i b. omega arith) v.below) v.distinct;
      sound = All-append IsSound s.jobs (j ∷ []) v.sound (
        fresh_job-IsSound now project session evidence category trace max soft hard s.next_id h,
        tt,
      );
    }
Change-IsValid (burn s) v = record {
  below = All-map (λ j. key j < s.next_id) _ s.jobs (λ j b. omega arith) v.below;
  distinct = v.distinct;
  sound = v.sound;
}
Change-IsValid (both c d) v = Change-IsValid d (Change-IsValid c v)

pub apply-IsValid : (c : Call) (s : JobStore) → AllowsAttempt c → IsValid s → IsValid (apply c s)
apply-IsValid c s h v = Change-IsValid (apply-Change c s h) v

-- Every history of calls, failing ones included, keeps the queue valid: ids are distinct and below
-- the next one, a claimable job has no claimant and a claimed one has, and every job that is not
-- terminal has failed fewer times than it may. The calls enqueue jobs with at least one attempt.
pub run-IsValid :
    (calls : List Call) (s : JobStore) → All AllowsAttempt calls → IsValid s → IsValid (run calls s)
unfolding run
run-IsValid [] s h v = v
run-IsValid (c ∷ calls) s h v = run-IsValid calls (apply c s) h.1 (apply-IsValid c s h.0 v)
