-- ===== src/Prelude/Sequences.antt =====
-- Python's `sorted`, slices and truth of a list.
use Prim.Native.Nat.{ℕ, zero, suc}
use mathlib.Core.Logic.{inl, inr}
use mathlib.Core.Bool.{Bool, true, false}
use mathlib.Core.List.{List, [], ◌∷◌}
use cognikernel.Prelude.Tests.{if◌then◌else◌, Bool-cases}
use cognikernel.Prelude.Tables.{All}

-- `sorted(…, reverse=True)`, which is stable: `less` compares the keys
unfoldable pub insert_sorted {ℓ} : {A : Type ℓ} → (A → A → Bool) → A → List A → List A
insert_sorted less x [] = x ∷ []
insert_sorted less x (y ∷ ys) = if less x y then y ∷ insert_sorted less x ys else x ∷ y ∷ ys

unfoldable pub sort_down {ℓ} : {A : Type ℓ} → (A → A → Bool) → List A → List A
unfolding insert_sorted
sort_down less [] = []
sort_down less (x ∷ xs) = insert_sorted less x (sort_down less xs)

-- xs[n:]
unfoldable pub drop {ℓ} : {A : Type ℓ} → ℕ → List A → List A
drop zero xs = xs
drop (suc n) [] = []
drop (suc n) (x ∷ xs) = drop n xs

-- xs[:n]
unfoldable pub take {ℓ} : {A : Type ℓ} → ℕ → List A → List A
take zero xs = []
take (suc n) [] = []
take (suc n) (x ∷ xs) = x ∷ take n xs

-- not xs
abbrev pub is_empty {ℓ} : {A : Type ℓ} → List A → Bool
is_empty [] = true
is_empty (x ∷ xs) = false

module _ {ℓ κ} {A : Type ℓ} (P : A → Type κ) (less : A → A → Bool) where
  insert-All : (x : A) (xs : List A) → P x → All P xs → All P (insert_sorted less x xs)
  unfolding insert_sorted
  insert-All x [] p h = (p, tt)
  insert-All x (y ∷ ys) p h = elim (Bool-cases (less x y)) [
    | inl t ↦ rw t (h.0, insert-All x ys p h.1)
    | inr t ↦ rw t (p, h)
  ]

  pub sort-All : (xs : List A) → All P xs → All P (sort_down less xs)
  unfolding sort_down
  sort-All [] h = tt
  sort-All (x ∷ xs) h = insert-All x (sort_down less xs) h.0 (sort-All xs h.1)

  insert-All-of : (x : A) (xs : List A) → All P (insert_sorted less x xs) → P x × All P xs
  unfolding insert_sorted
  insert-All-of x [] h = (h.0, tt)
  insert-All-of x (y ∷ ys) h = elim (Bool-cases (less x y)) [
    | inl t ↦
        let (first, others) = rw t at h in let (p, q) = insert-All-of x ys others in (p, (first, q))
    | inr t ↦ rw t at h
  ]

  -- what holds of the sorted elements holds of the elements
  pub sort-All-of : (xs : List A) → All P (sort_down less xs) → All P xs
  unfolding sort_down
  sort-All-of [] h = tt
  sort-All-of (x ∷ xs) h =
      let (p, q) = insert-All-of x (sort_down less xs) h in (p, sort-All-of xs q)

pub take-All {ℓ κ} :
    {A : Type ℓ} (P : A → Type κ) (n : ℕ) (xs : List A) → All P xs → All P (take n xs)
unfolding take
take-All P zero xs h = tt
take-All P (suc n) [] h = tt
take-All P (suc n) (x ∷ xs) h = (h.0, take-All P n xs h.1)
