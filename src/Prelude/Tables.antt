-- ===== src/Prelude/Tables.antt =====
-- SQL tables as lists of rows in insertion order: SELECT, UPDATE and DELETE by a Boolean WHERE,
-- and the row counts that a cursor reports.
use Prim.Native.Nat.{ℕ, suc, ◌+◌}
use mathlib.Core.Path.{◌≡◌, refl}
use mathlib.Core.Logic.{◌⊎◌, inl, inr}
use mathlib.Core.Bool.{Bool, true, false, not}
use mathlib.Core.Option.{Option, none, some}
use mathlib.Core.List.{List, [], ◌∷◌, ◌++◌}
use native.Mathlib.Omega.{arith}
use cognikernel.Prelude.Tests.{if◌then◌else◌, Bool-cases}

module _ {ℓ} {A : Type ℓ} where
  abbrev pub length : List A → ℕ
  length [] = 0
  length (x ∷ xs) = suc (length xs)

  abbrev pub All {κ} : (A → Type κ) → List A → Type κ
  All P [] = Unit
  All P (x ∷ xs) = P x × All P xs

  -- SELECT * WHERE p
  unfoldable pub select : (A → Bool) → List A → List A
  select p [] = []
  select p (x ∷ xs) = let rest = select p xs in if p x then x ∷ rest else rest

  -- UPDATE SET f WHERE p
  unfoldable pub update_where : (A → Bool) → (A → A) → List A → List A
  update_where p f [] = []
  update_where p f (x ∷ xs) = (if p x then f x else x) ∷ update_where p f xs

  -- the row count of an UPDATE or DELETE WHERE p
  unfoldable pub count_where : (A → Bool) → List A → ℕ
  count_where p [] = 0
  count_where p (x ∷ xs) = (if p x then 1 else 0) + count_where p xs

  -- SELECT * WHERE p, fetchone()
  unfoldable pub first_where : (A → Bool) → List A → Option A
  first_where p [] = none
  first_where p (x ∷ xs) = if p x then some x else first_where p xs

  -- DELETE WHERE p
  abbrev pub delete_where : (A → Bool) → List A → List A
  delete_where p = select (λ x. not (p x))

  -- `x in collection`, for a test `p` of being `x`
  unfoldable pub any : (A → Bool) → List A → Bool
  any p [] = false
  any p (x ∷ xs) = if p x then true else any p xs

  pub All-append {κ} : (P : A → Type κ) (xs ys : List A) → All P xs → All P ys → All P (xs ++ ys)
  All-append P [] ys hx hy = hy
  All-append P (x ∷ xs) ys hx hy = (hx.0, All-append P xs ys hx.1 hy)

  pub All-update_where {κ} :
      (P : A → Type κ) (p : A → Bool) (f : A → A) (xs : List A)
      → ((x : A) → p x ≡ true → P x → P (f x))
      → All P xs
      → All P (update_where p f xs)
  unfolding update_where
  All-update_where P p f [] keep h = tt
  All-update_where P p f (x ∷ xs) keep h = elim (Bool-cases (p x)) [
    | inl e ↦ (rw e (keep x e h.0), All-update_where P p f xs keep h.1)
    | inr e ↦ (rw e h.0, All-update_where P p f xs keep h.1)
  ]

  -- Where no row meets the WHERE, nothing is written, counted or selected.
  pub update_where-none :
      (p : A → Bool) (f : A → A) (xs : List A)
      → All (λ x. p x ≡ false) xs
      → update_where p f xs ≡ xs
  unfolding update_where
  update_where-none p f [] h = refl
  update_where-none p f (x ∷ xs) h = rw (h.0, update_where-none p f xs h.1)

  pub count_where-none :
      (p : A → Bool) (xs : List A) → All (λ x. p x ≡ false) xs → count_where p xs ≡ 0
  unfolding count_where
  count_where-none p [] h = refl
  count_where-none p (x ∷ xs) h = rw (h.0, count_where-none p xs h.1)

  pub select-none : (p : A → Bool) (xs : List A) → select p xs ≡ [] → All (λ x. p x ≡ false) xs
  unfolding select
  select-none p [] e = tt
  select-none p (x ∷ xs) e = elim (Bool-cases (p x)) [
    | inl t ↦ absurd (ground arith)
    | inr t ↦ (t, select-none p xs (ground arith))
  ]

  pub any-first_where :
      (p : A → Bool) (xs : List A) (x : A) → first_where p xs ≡ some x → any p xs ≡ true
  unfolding first_where any
  any-first_where p [] x e = cc
  any-first_where p (y ∷ xs) x e = ground (arith, any-first_where p xs x)

  pub All-trivial {κ} : (P : A → Type κ) (xs : List A) → ((x : A) → P x) → All P xs
  All-trivial P [] h = tt
  All-trivial P (x ∷ xs) h = (h x, All-trivial P xs h)

  -- What holds of the selected rows holds of the rows that meet the WHERE.
  pub All-of_select {κ} :
      (P : A → Type κ) (p : A → Bool) (xs : List A)
      → All P (select p xs)
      → All (λ x. p x ≡ true → P x) xs
  unfolding select
  All-of_select P p [] h = tt
  All-of_select P p (x ∷ xs) h = elim (Bool-cases (p x)) [
    | inl e ↦ let h' = rw e at h in (λ _. h'.0, All-of_select P p xs h'.1)
    | inr e ↦ (λ t. cc, All-of_select P p xs (rw e at h))
  ]

  pub All-select {κ} :
      (P : A → Type κ) (p : A → Bool) (xs : List A) → All P xs → All P (select p xs)
  unfolding select
  All-select P p [] h = tt
  All-select P p (x ∷ xs) h = elim (Bool-cases (p x)) [
    | inl e ↦ rw e (h.0, All-select P p xs h.1)
    | inr e ↦ rw e (All-select P p xs h.1)
  ]

  -- A selected row meets the WHERE.
  pub select-All : (p : A → Bool) (xs : List A) → All (λ x. p x ≡ true) (select p xs)
  unfolding select
  select-All p [] = tt
  select-All p (x ∷ xs) = elim (Bool-cases (p x)) [
    | inl e ↦ rw e (e, select-All p xs)
    | inr e ↦ rw e (select-All p xs)
  ]

  pub first_where-All {κ} :
      (P : A → Type κ) (p : A → Bool) (xs : List A) (x : A)
      → All P xs
      → first_where p xs ≡ some x
      → P x × (p x ≡ true)
  unfolding first_where
  first_where-All P p [] x h e = cc
  first_where-All P p (y ∷ xs) x h e = elim (Bool-cases (p y)) [
    | inl t ↦ let q : y ≡ x = ground arith in rw (← q) (h.0, t)
    | inr t ↦ first_where-All P p xs x h.1 (ground arith)
  ]

module _ {ℓ} {A : Type ℓ} where
  pub All-map {κ μ} :
      (P : A → Type κ) (Q : A → Type μ) (xs : List A) → ((x : A) → P x → Q x) → All P xs → All Q xs
  All-map P Q [] f h = tt
  All-map P Q (x ∷ xs) f h = (f x h.0, All-map P Q xs f h.1)

  pub All-both {κ μ} :
      (P : A → Type κ) (Q : A → Type μ) (xs : List A)
      → All P xs
      → All Q xs
      → All (λ x. P x × Q x) xs
  All-both P Q [] h k = tt
  All-both P Q (x ∷ xs) h k = ((h.0, k.0), All-both P Q xs h.1 k.1)

module _ {A : Type 0} where
  -- a row of the table
  abbrev pub In : A → List A → Type 0
  In x [] = ⊥
  In x (y ∷ ys) = (x ≡ y) ⊎ In x ys

  pub All-In : (xs : List A) → All (λ x. In x xs) xs
  All-In [] = tt
  All-In (x ∷ xs) =
      (inl refl, All-map (λ y. In y xs) (λ y. In y (x ∷ xs)) xs (λ y h. inr h) (All-In xs))

-- An UPDATE that reads one property of the rows and leaves another.
module _ {ℓ κ μ} {A : Type ℓ} where
  pub All-updated :
      (P : A → Type κ) (Q : A → Type μ) (p : A → Bool) (f : A → A) (xs : List A)
      → ((x : A) → p x ≡ true → P x → Q (f x))
      → ((x : A) → p x ≡ false → P x → Q x)
      → All P xs
      → All Q (update_where p f xs)
  unfolding update_where
  All-updated P Q p f [] on off h = tt
  All-updated P Q p f (x ∷ xs) on off h = elim (Bool-cases (p x)) [
    | inl e ↦ (rw e (on x e h.0), All-updated P Q p f xs on off h.1)
    | inr e ↦ (rw e (off x e h.0), All-updated P Q p f xs on off h.1)
  ]
