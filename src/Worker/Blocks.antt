-- ===== src/Worker/Blocks.antt =====
-- integration/session.py: what a block of calls that may raise keeps of the store.
use cognikernel.Prelude.{◌≡◌, refl, Result, ok, err}
use cognikernel.Jobs.Row.{JobStore}
use cognikernel.Jobs.Calls.{or_before}
use cognikernel.Worker.{Store, Block, continue_with, ◌>>=◌, Setting, reading, write_jobs, on_jobs}

-- A block keeps `P`, whether it raises or not.
pub record Keeps {W Blob A : Type 0} (P : Store W Blob → Type 0) (m : Block (Store W Blob) A)
    : Type 0 where
  pub kept : (s : Store W Blob) → P s → P (m s).0

module _ {W Blob : Type 0} (P : Store W Blob → Type 0) where
  pub Keeps-then :
      {A B : Type 0} (m : Block (Store W Blob) A) (rest : A → Block (Store W Blob) B)
      → Keeps P m
      → ((x : A) → Keeps P (rest x))
      → Keeps P (m >>= rest)
  Keeps-then {A} {B} m rest h k = record { kept = λ s p. go (m s) (h.kept s p) }
    where
      go : (r : Store W Blob × Result A) → P r.0 → P (continue_with rest r).0
      go (s', ok x) q = (k x).kept s' q
      go (s', err raised) q = q

  -- what follows a read may count on its result
  pub Keeps-reading :
      (c : Setting W Blob) {A B : Type 0} (f : Store W Blob → Result A)
      (rest : A → Block (Store W Blob) B)
      → ((s : Store W Blob) (x : A) → f s ≡ ok x → Keeps P (rest x))
      → Keeps P (reading c f >>= rest)
  unfolding reading
  Keeps-reading c {A} {B} f rest k = record { kept = λ s p. go s p (f s) refl }
    where
      go : (s : Store W Blob) → P s → (r : Result A) → f s ≡ r → P (continue_with rest (s, r)).0
      go s p (ok x) e = (k s x e).kept s p
      go s p (err raised) e = p

  pub Keeps-on_jobs :
      (c : Setting W Blob) (f : JobStore → Result JobStore)
      → ((s : Store W Blob) → P s → P (record s { jobs = or_before s.jobs (f s.jobs) }))
      → Keeps P (on_jobs c f)
  unfolding on_jobs
  Keeps-on_jobs c f h = record { kept = λ s p. go s p (f s.jobs) (h s p) }
    where
      go :
          (s : Store W Blob)
          → P s
          → (r : Result JobStore) → P (record s { jobs = or_before s.jobs r })
          → P (write_jobs c r s).0
      go s p (ok jobs) q = q
      go s p (err raised) q = p
