-- ===== src/Prelude/Keys.antt =====
-- SQL tables whose rows are found by a numeric key, such as the primary key.
use Prim.Native.Nat.{ℕ, ◌<◌}
use mathlib.Core.Path.{◌≡◌, refl}
use mathlib.Core.Logic.{◌≢◌, inl, inr}
use mathlib.Core.Bool.{Bool, true, false}
use mathlib.Core.Option
use mathlib.Core.Option.{Option, none, some}
use mathlib.Core.List.{List, [], ◌∷◌, ◌++◌}
use native.Mathlib.Omega.{arith}
use cognikernel.Prelude.Tests.{◌==◌, if◌then◌else◌, Bool-cases, eq_self}
use cognikernel.Prelude.Tables.{
  All, All-update_where, All-append, All-map, All-both, any, select, update_where, count_where,
}

-- Rows found by a key of numbers, such as the primary key.
module _ {ℓ} {A : Type ℓ} (key : A → ℕ) where
  unfoldable pub find_key : ℕ → List A → Option A
  find_key i [] = none
  find_key i (x ∷ xs) = if key x == i then some x else find_key i xs

  -- An UPDATE that keeps the key changes the row that is found, where its WHERE holds of it.
  pub find_key-update_where :
      (p : A → Bool) (f : A → A) (i : ℕ) (xs : List A)
      → ((x : A) → key (f x) ≡ key x)
      → find_key i (update_where p f xs) ≡ Option.map (λ x. if p x then f x else x) (find_key i xs)
  unfolding find_key update_where
  find_key-update_where p f i [] keep = refl
  find_key-update_where p f i (x ∷ xs) keep =
      ground (arith, keep x, find_key-update_where p f i xs keep)

  -- An INSERT hides no row.
  pub find_key-append :
      (i : ℕ) (xs ys : List A) (x : A) → find_key i xs ≡ some x → find_key i (xs ++ ys) ≡ some x
  unfolding find_key
  find_key-append i [] ys x h = cc
  find_key-append i (y ∷ xs) ys x h = ground (arith, find_key-append i xs ys x)

  pub find_key-All {κ} :
      (P : A → Type κ) (i : ℕ) (xs : List A) (x : A)
      → All P xs
      → find_key i xs ≡ some x
      → P x × (key x ≡ i)
  unfolding find_key
  find_key-All P i [] x h e = cc
  find_key-All P i (y ∷ xs) x h e = elim (Bool-cases (key y == i)) [
    | inl t ↦ let q : y ≡ x = ground arith in rw (← q) (h.0, ground arith)
    | inr t ↦ find_key-All P i xs x h.1 (ground arith)
  ]

  pub find_key-key : (i : ℕ) (xs : List A) (x : A) → find_key i xs ≡ some x → key x ≡ i
  unfolding find_key
  find_key-key i [] x e = cc
  find_key-key i (y ∷ xs) x e = ground (arith, find_key-key i xs x)

  -- No two rows have one key.
  abbrev pub Distinct : List A → Type 0
  Distinct [] = Unit
  Distinct (x ∷ xs) = All (λ y. key y ≢ key x) xs × Distinct xs

  pub Distinct-update_where :
      (p : A → Bool) (f : A → A) (xs : List A)
      → ((x : A) → key (f x) ≡ key x)
      → Distinct xs
      → Distinct (update_where p f xs)
  unfolding update_where
  Distinct-update_where p f [] keep d = tt
  Distinct-update_where p f (x ∷ xs) keep d =
      let same : key (if p x then f x else x) ≡ key x = ground (arith, keep x) in
      (
        rw same (All-update_where (λ y. key y ≢ key x) p f xs (λ y _ h. rw (keep y) h) d.0),
        Distinct-update_where p f xs keep d.1,
      )

  pub Distinct-append :
      (xs : List A) (y : A) → All (λ x. key x < key y) xs → Distinct xs → Distinct (xs ++ y ∷ [])
  Distinct-append [] y h d = (tt, tt)
  Distinct-append (x ∷ xs) y h d = (
    All-append (λ z. key z ≢ key x) xs (y ∷ []) d.0 (omega (arith, h.0), tt),
    Distinct-append xs y h.1 d.1,
  )

  -- With distinct keys, whatever row has the key is the row that is found.
  pub find_key_unique :
      (i : ℕ) (xs : List A) (r : A)
      → Distinct xs
      → find_key i xs ≡ some r
      → All (λ x. (key x == i) ≡ true → x ≡ r) xs
  unfolding find_key
  find_key_unique i [] r d e = tt
  find_key_unique i (x ∷ xs) r d e = elim (Bool-cases (key x == i)) [
    | inl t ↦
        let q : x ≡ r = ground arith in
        (λ _. q, All-map (λ y. key y ≢ key x) _ xs (λ y ne u. absurd (ne (ground arith))) d.0)
    | inr t ↦ (λ u. cc, find_key_unique i xs r d.1 (ground arith))
  ]

  -- A row that the WHERE of an UPDATE does not pick is found again as it was.
  pub find_key-untouched :
      (p : A → Bool) (f : A → A) (i : ℕ) (xs : List A) (r : A)
      → ((x : A) → key (f x) ≡ key x)
      → p r ≡ false
      → find_key i xs ≡ some r
      → find_key i (update_where p f xs) ≡ some r
  find_key-untouched p f i xs r keep off e = rw (find_key-update_where p f i xs keep, e, off)

  -- With distinct keys, every row is the one that is found by its key.
  pub find_key_self : (xs : List A) → Distinct xs → All (λ x. find_key (key x) xs ≡ some x) xs
  unfolding find_key
  find_key_self [] d = tt
  find_key_self (x ∷ xs) d = (
    rw (eq_self (key x)),
    All-map _ _ xs (λ y h. ground (arith, h.0, h.1))
        (All-both (λ y. key y ≢ key x) (λ y. find_key (key y) xs ≡ some y) xs d.0
          (find_key_self xs d.1)),
  )

  pub count_where-pos :
      (p : A → Bool) (i : ℕ) (xs : List A) (r : A)
      → find_key i xs ≡ some r
      → p r ≡ true
      → 0 < count_where p xs
  unfolding find_key count_where
  count_where-pos p i [] r e h = cc
  count_where-pos p i (x ∷ xs) r e h = elim (Bool-cases (key x == i)) [
    | inl t ↦ let q : x ≡ r = ground arith in rw (q, h) (omega arith)
    | inr t ↦ ground (arith, count_where-pos p i xs r)
  ]

  any-key-absent :
      (p : A → Bool) (i : ℕ) (xs : List A)
      → All (λ x. key x ≢ i) xs
      → any (λ x. key x == i) (select p xs) ≡ false
  unfolding select any
  any-key-absent p i [] h = refl
  any-key-absent p i (x ∷ xs) h = ground (arith, h.0, any-key-absent p i xs h.1)

  -- Whether the rows selected by `p` hold one with the key is what `p` says of the row found by it.
  pub any-key-select :
      (p : A → Bool) (i : ℕ) (xs : List A) (r : A)
      → Distinct xs
      → find_key i xs ≡ some r
      → any (λ x. key x == i) (select p xs) ≡ p r
  unfolding find_key select any
  any-key-select p i [] r d e = cc
  any-key-select p i (x ∷ xs) r d e = elim (Bool-cases (key x == i)) [
    | inr t ↦ ground (arith, any-key-select p i xs r d.1)
    | inl t ↦
        let q : x ≡ r = ground arith in
        let rest =
          any-key-absent p i xs (All-map (λ y. key y ≢ key x) _ xs (λ y h. ground arith) d.0) in
        ground (arith, rest)
  ]
