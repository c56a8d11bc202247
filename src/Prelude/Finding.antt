-- ===== src/Prelude/Finding.antt =====
-- SQL tables: what a SELECT of one row finds after an UPDATE or an INSERT.
use mathlib.Core.Path.{◌≡◌, refl}
use mathlib.Core.Bool.{Bool, true, false}
use mathlib.Core.Option.{Option, none, some}
use mathlib.Core.List.{List, [], ◌∷◌, ◌++◌}
use native.Mathlib.Omega.{arith}
use cognikernel.Prelude.Tests.{if◌then◌else◌}
use cognikernel.Prelude.Tables.{
  any, any-first_where, first_where, update_where, delete_where, select,
}

-- an UPDATE that leaves the WHERE of the SELECT
pub first_where-update_where {ℓ} :
    {A : Type ℓ} (p : A → Bool) (f : A → A) (rows : List A) (r : A)
    → ((x : A) → p (f x) ≡ p x)
    → first_where p rows ≡ some r
    → first_where p (update_where p f rows) ≡ some (f r)
unfolding first_where update_where
first_where-update_where p f [] r keep h = absurd (ground arith)
first_where-update_where p f (x ∷ rows) r keep h =
    ground (arith, keep x, first_where-update_where p f rows r keep)

-- an INSERT of the first row that meets the WHERE
pub first_where-append_one {ℓ} :
    {A : Type ℓ} (p : A → Bool) (row : A) (rows : List A)
    → any p rows ≡ false
    → p row ≡ true
    → first_where p (rows ++ row ∷ []) ≡ some row
unfolding first_where any
first_where-append_one p row [] h k = rw k refl
first_where-append_one p row (r ∷ rows) h k = ground (arith, first_where-append_one p row rows)

pub any-first_where-none {ℓ} :
    {A : Type ℓ} (p : A → Bool) (rows : List A) → first_where p rows ≡ none → any p rows ≡ false
unfolding first_where any
any-first_where-none p [] h = refl
any-first_where-none p (r ∷ rows) h = ground (arith, any-first_where-none p rows)

-- an INSERT … ON CONFLICT DO UPDATE
pub first_where-upsert {ℓ} :
    {A : Type ℓ} (p : A → Bool) (f : A → A) (row : A) (rows : List A)
    → ((x : A) → p (f x) ≡ p x)
    → p row ≡ true
    → first_where p (if any p rows then update_where p f rows else rows ++ row ∷ [])
      ≡ some (elim (first_where p rows) [ none ↦ row | some r ↦ f r ])
first_where-upsert {A = A} p f row rows keep new = go (first_where p rows) refl
  where
    go :
        (o : Option A)
        → first_where p rows ≡ o
        → first_where p (if any p rows then update_where p f rows else rows ++ row ∷ [])
          ≡ some (elim o [ none ↦ row | some r ↦ f r ])
    go none h =
        rw (any-first_where-none p rows h)
          (first_where-append_one p row rows (any-first_where-none p rows h) new)
    go (some r) h = rw (any-first_where p rows r h) (first_where-update_where p f rows r keep h)

-- a DELETE
pub first_where-delete_where {ℓ} :
    {A : Type ℓ} (p : A → Bool) (rows : List A) → first_where p (delete_where p rows) ≡ none
unfolding first_where select
first_where-delete_where p [] = refl
first_where-delete_where p (r ∷ rows) = ground (arith, first_where-delete_where p rows)
