-- ===== src/Worker/Measure.antt =====
-- integration/session.py: the attempts that the queue has left, by which the rounds of a worker are
-- counted.
use cognikernel.Prelude.{
  ℕ, suc, ◌+◌, ◌-◌, ◌≤◌, ◌≡◌, ◌≢◌, refl, String, Bool, true, false, some, List, [], ◌∷◌, arith,
  ◌==◌, if◌then◌else◌, Bool-cases, inl, inr, All, All-map, Distinct, find_key, update_where, eq→≡,
}
use cognikernel.Jobs.Row.{Job, is_claimable}
use cognikernel.Jobs.Queue.{is_candidate, claim_row, ack_row, fail_row, failed_state}
use cognikernel.Jobs.Validity.{key}

-- A claimable job is tried until its attempts are spent, once at least.
unfoldable pub tries : String → Job → ℕ
tries category j = if is_candidate category j then suc (j.max_attempts - suc j.attempts) else 0

unfoldable pub total : String → List Job → ℕ
total category [] = 0
total category (j ∷ js) = tries category j + total category js

module _ (category : String) where
  pub total-kept :
      (p : Job → Bool) (f : Job → Job) (js : List Job)
      → ((j : Job) → p j ≡ true → tries category (f j) ≤ tries category j)
      → total category (update_where p f js) ≤ total category js
  unfolding total update_where
  total-kept p f [] h = omega arith
  total-kept p f (j ∷ js) h = elim (Bool-cases (p j)) [
    | inl t ↦ rw t (omega (arith, h j t, total-kept p f js h))
    | inr t ↦ rw t (omega (arith, total-kept p f js h))
  ]

  -- an UPDATE that takes a job out of the queue
  pub total-dropped :
      (p : Job → Bool) (f : Job → Job) (i : ℕ) (js : List Job) (r : Job)
      → ((j : Job) → p j ≡ true → tries category (f j) ≡ 0)
      → find_key key i js ≡ some r
      → p r ≡ true
      → total category (update_where p f js) + tries category r ≤ total category js
  unfolding total update_where find_key
  total-dropped p f i [] r h e t = cc
  total-dropped p f i (j ∷ js) r h e t = elim (Bool-cases (key j == i)) [
    | inl u ↦
        let same : j ≡ r = ground arith in
        let rest = total-kept p f js (λ k pk. rw (h k pk) (omega arith)) in
        rw (same, t, h r t) (omega (arith, rest))
    | inr u ↦ elim (Bool-cases (p j)) [
      | inl v ↦ rw (v, h j v) (omega (arith, total-dropped p f i js r h (ground arith) t))
      | inr v ↦ rw v (omega (arith, total-dropped p f i js r h (ground arith) t))
    ]
  ]

  -- no other row has the key of a row before it
  total-absent :
      (f : Job → Job) (i : ℕ) (js : List Job)
      → All (λ j. key j ≢ i) js
      → total category (update_where (λ j. j.id == i) f js) ≡ total category js
  unfolding total update_where
  total-absent f i [] h = refl
  total-absent f i (j ∷ js) h = ground (arith, h.0, total-absent f i js h.1)

  -- an UPDATE by the primary key that may put the job back
  pub total-raised :
      (f : Job → Job) (i n : ℕ) (js : List Job)
      → Distinct key js
      → All (λ j. key j ≡ i → tries category (f j) ≤ n) js
      → total category (update_where (λ j. j.id == i) f js) ≤ total category js + n
  unfolding total update_where
  total-raised f i n [] d h = omega arith
  total-raised f i n (j ∷ js) d h = elim (Bool-cases (j.id == i)) [
    | inl u ↦
        let q : j.id ≡ i = eq→≡ j.id i u in
        let rest =
          total-absent f i js
            (All-map (λ k. key k ≢ key j) (λ k. key k ≢ i) js (λ k ne. rw (← q) ne) d.0) in
        rw u (omega (arith, rest, h.0 q))
    | inr u ↦ rw u (omega (arith, total-raised f i n js d.1 h.1))
  ]

  pub total-zero :
      (js : List Job) → total category js ≡ 0 → All (λ j. is_candidate category j ≡ false) js
  unfolding total tries
  total-zero [] h = tt
  total-zero (j ∷ js) h = (ground arith, total-zero js (omega (arith, h)))

  pub tries-pos :
      (j : Job)
      → is_candidate category j ≡ true
      → tries category j ≡ suc (j.max_attempts - suc j.attempts)
  unfolding tries
  tries-pos j h = rw h refl

  pub tries-claim_row :
      (now : ℕ) (who : String) (j : Job) → tries category (claim_row now who j) ≡ 0
  unfolding tries is_candidate claim_row is_claimable
  tries-claim_row now who j = ground arith

  pub tries-ack_row :
      (stage : String) (now : ℕ) (j : Job) → tries category (ack_row stage now j) ≡ 0
  unfolding tries is_candidate ack_row is_claimable
  tries-ack_row stage now j = ground arith

  pub tries-fail_row :
      (class message : String) (now : ℕ) (j : Job)
      → tries category (fail_row class message (j.attempts + 1) j.max_attempts now j)
        ≤ j.max_attempts - suc j.attempts
  unfolding tries is_candidate fail_row failed_state is_claimable
  tries-fail_row class message now j = ground arith
