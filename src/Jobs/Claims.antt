-- ===== src/Jobs/Claims.antt =====
-- storage/jobs.py: what a claim takes, what a second worker gets, and what enqueuing twice does.
use cognikernel.Prelude.{
  ℕ, ◌≡◌, refl, ap, subst, ◌∙◌, String, Bool, true, false, Option, none, some, List, [], ◌∷◌, inl,
  inr, arith, ◌==◌, if◌then◌else◌, All, All-map, All-updated, All-trivial, All-of_select,
  select-All, select-none, find_key-update_where, update_where-none, count_where-none, find_key-key,
  find_key_self, count_where-pos, All-select, ok, Option-cases, select,
}
use cognikernel.Jobs.Row.{Job, JobStore, is_claimable}
use cognikernel.Jobs.Queue.{
  before, earlier, oldest, is_candidate, claim_select, is_unclaimed, claim_row, claim_update,
  get_job, claim_finish, claim_next_job,
}
use cognikernel.Jobs.Changes.{find_job}
use cognikernel.Jobs.Validity.{key, IsValid}

-- `a` comes no later than `b` in the order of `ORDER BY updated_at ASC, id ASC`.
abbrev pub NotAfter : Job → Job → Type 0
NotAfter a b = before b a ≡ false

before_asym : (k j : Job) → before k j ≡ true → NotAfter k j
unfolding before
before_asym k j h = ground arith

NotAfter-trans : (j k c : Job) → NotAfter j k → NotAfter k c → NotAfter j c
unfolding before
NotAfter-trans j k c h h' = ground arith

NotAfter-refl : (a : Job) → NotAfter a a
unfolding before
NotAfter-refl a = ground arith

-- What a LIMIT 1 result says of the rows: none is only the answer of an empty table.
abbrev OldestOf : Option Job → List Job → Type 0
OldestOf none js = js ≡ []
OldestOf (some k) js = All (NotAfter k) js

pick-NotAfter :
    (j k : Job) (js : List Job) (b : Bool)
    → before k j ≡ b
    → All (NotAfter k) js
    → All (NotAfter (if b then k else j)) (j ∷ js)
pick-NotAfter j k js true e h = (before_asym k j e, h)
pick-NotAfter j k js false e h =
    (NotAfter-refl j, All-map (NotAfter k) (NotAfter j) js (λ c. NotAfter-trans j k c e) h)

earlier-OldestOf :
    (j : Job) (js : List Job) (o : Option Job)
    → OldestOf o js
    → All (NotAfter (earlier j o)) (j ∷ js)
unfolding earlier
earlier-OldestOf j js none e = rw e (NotAfter-refl j, tt)
earlier-OldestOf j js (some k) h = pick-NotAfter j k js (before k j) refl h

oldest-OldestOf : (js : List Job) → OldestOf (oldest js) js
unfolding oldest
oldest-OldestOf [] = refl
oldest-OldestOf (j ∷ js) = earlier-OldestOf j js (oldest js) (oldest-OldestOf js)

oldest-none : (js : List Job) → oldest js ≡ none → js ≡ []
oldest-none js e = subst (λ o. OldestOf o js) e (oldest-OldestOf js)

abbrev HoldsOf {ℓ} : (Job → Type ℓ) → Option Job → Type ℓ
HoldsOf P none = Unit
HoldsOf P (some j) = P j

earlier-HoldsOf :
    (P : Job → Type 0) (j : Job) (o : Option Job) → P j → HoldsOf P o → P (earlier j o)
unfolding earlier
earlier-HoldsOf P j none h k = h
earlier-HoldsOf P j (some i) h k = either (before i j)
  where
    either : (b : Bool) → P (if b then i else j)
    either true = k
    either false = h

oldest-HoldsOf : (P : Job → Type 0) (js : List Job) → All P js → HoldsOf P (oldest js)
unfolding oldest
oldest-HoldsOf P [] h = tt
oldest-HoldsOf P (j ∷ js) h = earlier-HoldsOf P j (oldest js) h.0 (oldest-HoldsOf P js h.1)

-- After one worker's UPDATE of a job, no row is left that another's UPDATE of it would pick.
claimed-gone :
    (now : ℕ) (who : String) (id : ℕ) (s : JobStore)
    → All (λ j. is_unclaimed id j ≡ false) (claim_update now who id s).0.jobs
unfolding claim_update
claimed-gone now who id s =
    All-updated (λ _. Unit {0}) (λ j. is_unclaimed id j ≡ false) (is_unclaimed id)
      (claim_row now who) s.jobs
      (λ j e _. unfold is_unclaimed claim_row is_claimable in ground arith) (λ j e _. e)
      (All-trivial (λ _. Unit {0}) s.jobs (λ _. tt))

-- Two workers that selected the same job do not both get it: whatever order their UPDATEs have,
-- the one that comes second writes nothing and is told that there is no job.
pub claim_finish-race :
    (id now now' : ℕ) (who who' : String) (s : JobStore)
    → claim_finish id who' now' (claim_update now who id s).0
      ≡ ok ((claim_update now who id s).0, none)
unfolding claim_finish
claim_finish-race id now now' who who' s =
    let t = (claim_update now who id s).0 in
    let gone = claimed-gone now who id s in
    let zero_rows : (claim_update now' who' id t).1 ≡ 0 =
      unfold claim_update in count_where-none (is_unclaimed id) t.jobs gone in
    let same : (claim_update now' who' id t).0 ≡ t =
      unfold claim_update in
      ap (λ js. record t { jobs = js })
        (update_where-none (is_unclaimed id) (claim_row now' who') t.jobs gone) in
    rw (zero_rows, same)

-- What `claim_next_job` returns, by what its queue holds.
pub data TakesOldest (category who : String) (now : ℕ) (s : JobStore) : Type 0 where
  nothing :
      All (λ j. is_candidate category j ≡ false) s.jobs
      → claim_next_job category who now s ≡ ok (s, none)
      → TakesOldest category who now s
  taken :
      (row : Job)
      → find_job row.id s ≡ some row
      → is_candidate category row ≡ true
      → All (λ j. is_candidate category j ≡ true → NotAfter row j) s.jobs
      → claim_next_job category who now s
        ≡ ok ((claim_update now who row.id s).0, some (claim_row now who row))
      → TakesOldest category who now s

pub candidate-claimable :
    (category : String) (j : Job) → is_candidate category j ≡ true → is_claimable j.state ≡ true
unfolding is_candidate
candidate-claimable category j h = ground arith

claim_finish-taken :
    (id : ℕ) (who : String) (now : ℕ) (s : JobStore) (row : Job)
    → find_job id s ≡ some row
    → is_claimable row.state ≡ true
    → claim_finish id who now s ≡ ok ((claim_update now who id s).0, some (claim_row now who row))
unfolding claim_finish
claim_finish-taken id who now s row e c =
    let picked : is_unclaimed id row ≡ true =
      unfold is_unclaimed in ground (arith, find_key-key key id s.jobs row e) in
    let some_rows : ((claim_update now who id s).1 == 0) ≡ false =
      unfold claim_update in
      ground (arith, count_where-pos key (is_unclaimed id) id s.jobs row e picked) in
    let read : find_job id (claim_update now who id s).0 ≡ some (claim_row now who row) =
      unfold claim_update in
      find_key-update_where key (is_unclaimed id) (claim_row now who) id s.jobs
        (λ j. unfold claim_row in refl)
      ∙ rw (e, picked) in
    let found : get_job id (claim_update now who id s).0 ≡ ok (claim_row now who row) =
      unfold get_job in rw (read, get_job) in
    rw (some_rows, found)

-- In a valid queue a claim returns no job exactly because no job of the category is claimable, and
-- else it claims the one of them that was updated first (of those the one with the least id), and
-- returns that job's new row.
pub claim_next_job-TakesOldest :
    (category who : String) (now : ℕ) (s : JobStore) → IsValid s → TakesOldest category who now s
unfolding claim_next_job
claim_next_job-TakesOldest category who now s v = elim (Option-cases (claim_select category s)) [
  | inl e ↦
      nothing
        (select-none (is_candidate category) s.jobs (oldest-none _ (unfold claim_select in e)))
        (rw (e, claim_next_job))
  | inr (row, e) ↦
      let rows = select (is_candidate category) s.jobs in
      let e' : oldest rows ≡ some row = unfold claim_select in e in
      let at : (P : Job → Type 0) → All P rows → P row =
        λ P h. subst (HoldsOf P) e' (oldest-HoldsOf P rows h) in
      let picked =
        at (λ j. is_candidate category j ≡ true) (select-All (is_candidate category) s.jobs) in
      let found =
        at (λ j. find_job j.id s ≡ some j)
          (All-select _ (is_candidate category) s.jobs (find_key_self key s.jobs v.distinct)) in
      taken row found picked
        (All-of_select (NotAfter row) (is_candidate category) s.jobs
          (subst (λ o. OldestOf o rows) e' (oldest-OldestOf rows)))
        (rw (e, claim_next_job)
          (claim_finish-taken row.id who now s row found (candidate-claimable category row picked)))
]
