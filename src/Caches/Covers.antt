-- ===== src/Caches/Covers.antt =====
-- storage/grep_cache.py: the searches whose result a changed file may alter, and that the test of the
-- code misses none of them.
use cognikernel.Prelude.{
  starts_with, ℕ, zero, suc, ◌≡◌, ◌≢◌, refl, sym, ap, subst, ◌∙◌, String, Bool, true, false, List,
  [], ◌∷◌, ◌++◌, ◌==◌, arith, str_eq, eq_refl, eq_iff, eq_self, eq→≡, codes, Bool-cases, inl, inr,
}
use mathlib.Core.List.{reverse, reverse-append, reverse-cons, reverse-reverse, append-nil}
use cognikernel.Caches.Grep.{GrepEntry, drop_slashes, is_below, may_show}

abbrev pub slashes : ℕ → List ℕ
slashes zero = []
slashes (suc n) = 47 ∷ slashes n

-- A search with these filters looks at the changed file: it has no filter, or names the file, or
-- names a folder, with any number of slashes after it, that the file is below, or its glob matches.
pub data Covers (fnmatch : String → String → Bool) (changed path glob : String) : Type 0 where
  whole_project : path ≡ "" → glob ≡ "" → Covers fnmatch changed path glob
  file : path ≢ "" → path ≡ changed → Covers fnmatch changed path glob
  folder :
      (dir rest : List ℕ) (n : ℕ)
      → path ≢ ""
      → codes path ≡ dir ++ slashes n
      → codes changed ≡ dir ++ 47 ∷ rest
      → Covers fnmatch changed path glob
  matched : glob ≢ "" → fnmatch changed glob ≡ true → Covers fnmatch changed path glob

append-one : (xs ys : List ℕ) (c : ℕ) → xs ++ c ∷ ys ≡ (xs ++ c ∷ []) ++ ys
append-one [] ys c = refl
append-one (x ∷ xs) ys c = ap (λ zs. x ∷ zs) (append-one xs ys c)

drop_slashes-slashes :
    (n : ℕ) (dir : List ℕ) → drop_slashes (reverse (dir ++ slashes n)) ≡ drop_slashes (reverse dir)
drop_slashes-slashes zero dir = ap (λ xs. drop_slashes (reverse xs)) (append-nil dir)
drop_slashes-slashes (suc n) dir =
    ap (λ xs. drop_slashes (reverse xs)) (append-one dir (slashes n) 47)
    ∙ drop_slashes-slashes n (dir ++ 47 ∷ [])
    ∙ ap drop_slashes (reverse-append dir (47 ∷ []))
    ∙ unfold drop_slashes in refl

starts_with-append : (xs rest : List ℕ) → starts_with (xs ++ 47 ∷ []) (xs ++ 47 ∷ rest) ≡ true
unfolding starts_with
starts_with-append [] rest = refl
starts_with-append (x ∷ xs) rest = rw (eq_self x) (starts_with-append xs rest)

-- a folder without its slashes starts what is below it
below_stripped :
    (cs rest : List ℕ)
    → starts_with (reverse (drop_slashes cs) ++ 47 ∷ []) (reverse cs ++ 47 ∷ rest) ≡ true
unfolding drop_slashes
below_stripped [] rest = unfold starts_with in refl
below_stripped (c ∷ cs) rest = elim (Bool-cases (c == 47)) [
  | inr t ↦ rw t (starts_with-append (reverse (c ∷ cs)) rest)
  | inl t ↦
      rw (t, reverse-cons c cs, eq→≡ c 47 t, sym (append-one (reverse cs) (47 ∷ rest) 47))
        (below_stripped cs (47 ∷ rest))
]

below-is_below :
    (changed path : String) (dir rest : List ℕ) (n : ℕ)
    → codes path ≡ dir ++ slashes n
    → codes changed ≡ dir ++ 47 ∷ rest
    → is_below changed path ≡ true
unfolding is_below
below-is_below changed path dir rest n p q =
    let stripped : drop_slashes (reverse (codes path)) ≡ drop_slashes (reverse dir) =
      ap (λ xs. drop_slashes (reverse xs)) p ∙ drop_slashes-slashes n dir in
    rw (stripped, q)
      (subst
        (λ xs.
          starts_with (reverse (drop_slashes (reverse dir)) ++ 47 ∷ []) (xs ++ 47 ∷ rest) ≡ true)
        (reverse-reverse dir) (below_stripped (reverse dir) rest))

not_empty : (s : String) → s ≢ "" → str_eq s "" ≡ false
not_empty s h = elim (Bool-cases (str_eq s "")) [
  | inl t ↦ absurd (h ((eq_iff s "").0 t))
  | inr t ↦ t
]

module _ (digest24 : List ℕ → String) (fnmatch : String → String → Bool) where
  -- the test of the code finds every search that the file may alter
  pub Covers-may_show :
      (changed : String) (e : GrepEntry)
      → Covers fnmatch changed e.path_filter e.glob_filter
      → may_show digest24 fnmatch changed e ≡ true
  unfolding may_show
  Covers-may_show changed e (whole_project p g) = rw (p, g) refl
  Covers-may_show changed e (file p q) =
      rw (q, eq_refl changed, not_empty changed (λ z. p (q ∙ z)), may_show) refl
  Covers-may_show changed e (folder dir rest n p q r) =
      let below = below-is_below changed e.path_filter dir rest n q r in
      rw (not_empty e.path_filter p, below, may_show) (ground arith)
  Covers-may_show changed e (matched g m) =
      rw (not_empty e.glob_filter g, m, may_show) (ground arith)
