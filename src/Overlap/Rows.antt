-- ===== src/Overlap/Rows.antt =====
-- delta/supersede.py: the rolling rows of `levenshtein_normalized` hold the recursive distance of
-- the parts read so far, which are written last code point first.
use cognikernel.Prelude.{ℕ, suc, ◌≡◌, refl, ap, List, [], ◌∷◌, ltb, Bool-cases, inl, inr, length}
use mathlib.Core.List.{reverse, reverse_aux}
use native.Mathlib.Numerals.{add-one}
use cognikernel.Overlap.{
  range_from, fill_row, next_row, rows_from, last_or, distance_by_rows, edit_distance,
}
use cognikernel.Overlap.Edits.{dist, IsLeast, IsLeast-flip, IsLeast-reverse, dist-IsLeast}

-- the cells of the row for `ra` after the one for `rb`
cells : List ℕ → List ℕ → List ℕ → List ℕ
cells ra rb [] = []
cells ra rb (y ∷ b) = dist ra (y ∷ rb) ∷ cells ra (y ∷ rb) b

row : List ℕ → List ℕ → List ℕ
row ra b = dist ra [] ∷ cells ra [] b

fill_row-cells :
    (x : ℕ) (ra rb b : List ℕ)
    → fill_row x b (dist ra rb) (dist (x ∷ ra) rb) (cells ra rb b) ≡ cells (x ∷ ra) rb b
unfolding fill_row cells dist
fill_row-cells x ra rb [] = refl
fill_row-cells x ra rb (y ∷ b) =
    ap (λ rest. dist (x ∷ ra) (y ∷ rb) ∷ rest) (fill_row-cells x ra (y ∷ rb) b)

dist-nil : (a : List ℕ) → dist a [] ≡ length a
unfolding dist
dist-nil [] = refl
dist-nil (x ∷ a) = refl

next_row-row : (x : ℕ) (ra b : List ℕ) → next_row (suc (length ra)) x b (row ra b) ≡ row (x ∷ ra) b
unfolding next_row row
next_row-row x ra b =
    rw (← dist-nil (x ∷ ra)) (ap (λ rest. dist (x ∷ ra) [] ∷ rest) (fill_row-cells x ra [] b))

rows_from-row :
    (a ra b : List ℕ) → rows_from (suc (length ra)) a b (row ra b) ≡ row (reverse_aux a ra) b
unfolding rows_from
rows_from-row [] ra b = refl
rows_from-row (x ∷ a) ra b = rw (next_row-row x ra b) (rows_from-row a (x ∷ ra) b)

range_from-cells : (rb b : List ℕ) → range_from (suc (length rb)) (length b) ≡ cells [] rb b
unfolding range_from cells dist
range_from-cells rb [] = refl
range_from-cells rb (y ∷ b) = ap (λ rest. suc (length rb) ∷ rest) (range_from-cells (y ∷ rb) b)

last_or-cells :
    (ra rb b : List ℕ) → last_or (dist ra rb) (cells ra rb b) ≡ dist ra (reverse_aux b rb)
unfolding last_or cells
last_or-cells ra rb [] = refl
last_or-cells ra rb (y ∷ b) = last_or-cells ra (y ∷ rb) b

distance_by_rows-dist : (a b : List ℕ) → distance_by_rows a b ≡ dist (reverse a) (reverse b)
unfolding distance_by_rows dist row cells last_or
distance_by_rows-dist a b =
    rw (add-one (length b), first_row, rows_from-row a [] b) (last_or-cells (reverse a) [] b)
  where
    first_row : range_from 0 (suc (length b)) ≡ row [] b
    first_row = unfold range_from row dist in ap (λ rest. 0 ∷ rest) (range_from-cells [] b)

pub edit_distance-IsLeast : (a b : List ℕ) → IsLeast a b (edit_distance a b)
unfolding edit_distance
edit_distance-IsLeast a b = elim (Bool-cases (ltb (length a) (length b))) [
  | inl t ↦ rw t (IsLeast-flip (by_rows b a))
  | inr t ↦ rw t (by_rows a b)
]
  where
    by_rows : (a b : List ℕ) → IsLeast a b (distance_by_rows a b)
    by_rows a b =
        rw (distance_by_rows-dist a b) (IsLeast-reverse a b (dist-IsLeast (reverse a) (reverse b)))
