-- ===== src/Jobs/Listing.antt =====
-- storage/jobs.py: `list_jobs`, the newest jobs of a project.
use cognikernel.Prelude.{
  insert_sorted, sort-All, sort_down, take, take-All, ℕ, zero, suc, ◌≡◌, ◌≤◌, String, Bool, true,
  false, ◌&&◌, Option, none, some, List, [], ◌∷◌, arith, str_eq, select, All, All-map, All-select,
  All-both, select-All, All-In, In, length, Bool-cases, inl, inr,
}
use cognikernel.Jobs.Row.{JobState, Job, JobStore, same_state}
use cognikernel.Jobs.Queue.{before}

unfoldable pub is_listed_job : String → Option JobState → Job → Bool
is_listed_job project none j = str_eq j.project_id project
is_listed_job project (some state) j = str_eq j.project_id project && same_state j.state state

-- ORDER BY updated_at DESC, id DESC LIMIT ?
unfoldable pub list_jobs : String → Option JobState → ℕ → JobStore → List Job
unfolding is_listed_job sort_down
list_jobs project state limit s =
    take limit (sort_down before (select (is_listed_job project state) s.jobs))

-- Newest first: no later job of the list has the greater pair of update time and id.
abbrev pub IsNewestFirst : List Job → Type 0
IsNewestFirst [] = Unit
IsNewestFirst (j ∷ js) = All (λ k. before j k ≡ false) js × IsNewestFirst js

before-not_trans : (a b c : Job) → before a b ≡ false → before b c ≡ false → before a c ≡ false
unfolding before
before-not_trans a b c h k = ground arith

before-not_both : (a b : Job) → before a b ≡ true → before b a ≡ false
unfolding before
before-not_both a b h = ground arith

insert-lower :
    (j x : Job) (xs : List Job)
    → before j x ≡ false
    → All (λ k. before j k ≡ false) xs
    → All (λ k. before j k ≡ false) (insert_sorted before x xs)
unfolding insert_sorted
insert-lower j x [] p h = (p, tt)
insert-lower j x (y ∷ ys) p h = elim (Bool-cases (before x y)) [
  | inl t ↦ rw t (h.0, insert-lower j x ys p h.1)
  | inr t ↦ rw t (p, h)
]

insert-IsNewestFirst :
    (x : Job) (xs : List Job) → IsNewestFirst xs → IsNewestFirst (insert_sorted before x xs)
unfolding insert_sorted
insert-IsNewestFirst x [] h = (tt, tt)
insert-IsNewestFirst x (y ∷ ys) h = elim (Bool-cases (before x y)) [
  | inl t ↦ rw t (insert-lower y x ys (before-not_both x y t) h.0, insert-IsNewestFirst x ys h.1)
  | inr t ↦ rw t (
    (
      t,
      All-map (λ k. before y k ≡ false) (λ k. before x k ≡ false) ys
          (λ k q. before-not_trans x y k t q) h.0,
    ),
    h,
  )
]

sort-IsNewestFirst : (xs : List Job) → IsNewestFirst (sort_down before xs)
unfolding sort_down
sort-IsNewestFirst [] = tt
sort-IsNewestFirst (x ∷ xs) = insert-IsNewestFirst x (sort_down before xs) (sort-IsNewestFirst xs)

take-IsNewestFirst : (n : ℕ) (xs : List Job) → IsNewestFirst xs → IsNewestFirst (take n xs)
unfolding take
take-IsNewestFirst zero xs h = tt
take-IsNewestFirst (suc n) [] h = tt
take-IsNewestFirst (suc n) (x ∷ xs) h =
    (take-All (λ k. before x k ≡ false) n xs h.0, take-IsNewestFirst n xs h.1)

length-take_le {ℓ} : {A : Type ℓ} (n : ℕ) (xs : List A) → length (take n xs) ≤ n
unfolding take
length-take_le zero xs = omega arith
length-take_le (suc n) [] = omega arith
length-take_le (suc n) (x ∷ xs) = ground (arith, length-take_le n xs)

-- A listing holds at most `limit` jobs, each a job of the queue which is of the project and, where a
-- state is asked for, in that state, and the newest come first.
pub list_jobs-IsNewestFirst :
    (project : String) (state : Option JobState) (limit : ℕ) (s : JobStore)
    → (length (list_jobs project state limit s) ≤ limit)
      × IsNewestFirst (list_jobs project state limit s)
      × All
          (λ j. In j s.jobs × (is_listed_job project state j ≡ true))
          (list_jobs project state limit s)
unfolding list_jobs
list_jobs-IsNewestFirst project state limit s =
    let rows = select (is_listed_job project state) s.jobs in
    (
      length-take_le limit (sort_down before rows),
      take-IsNewestFirst limit _ (sort-IsNewestFirst rows),
      take-All _ limit _ (
          sort-All _ before rows (
            All-both (λ j. In j s.jobs) (λ j. is_listed_job project state j ≡ true) rows
              (All-select (λ j. In j s.jobs) (is_listed_job project state) s.jobs (All-In s.jobs))
              (select-All (is_listed_job project state) s.jobs))),
    )
