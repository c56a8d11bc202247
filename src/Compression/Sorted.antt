-- ===== src/Compression/Sorted.antt =====
-- compression/greedy.py: what the steps of the selection keep of their rows.
use cognikernel.Prelude.{
  sort-All, sort_down, ℕ, ◌+◌, List, [], ◌∷◌, ◌++◌, leb, str_eq, All, Bool-cases, inl, inr,
}
use cognikernel.Events.Row.{Floats, EventRow}
use cognikernel.Compression.Greedy.{
  ranks_lower, total, fill, or_first, compress_mandatory, see, see_all,
}

pub append-All {ℓ κ} :
    {A : Type ℓ} (P : A → Type κ) (xs ys : List A) → All P xs → All P ys → All P (xs ++ ys)
append-All P [] ys h k = k
append-All P (x ∷ xs) ys h k = (h.0, append-All P xs ys h.1 k)

module _ {κ} {W : Type 0} (f : Floats W) (tokens : EventRow W → ℕ) (P : EventRow W → Type κ) where
  pub fill-All :
      (limit used : ℕ) (rows : List (EventRow W))
      → All P rows
      → All P (fill f tokens limit used rows).0
  unfolding fill
  fill-All limit used [] h = tt
  fill-All limit used (r ∷ rows) h = elim (Bool-cases (leb (used + tokens r) limit)) [
    | inl t ↦ rw t (h.0, fill-All limit (used + tokens r) rows h.1)
    | inr t ↦ rw t (fill-All limit used rows h.1)
  ]

  or_first-All :
      (kept rows : List (EventRow W))
      → All P kept
      → All P rows
      → All P (or_first f tokens kept rows)
  unfolding or_first
  or_first-All (k ∷ kept) rows h g = h
  or_first-All [] [] h g = tt
  or_first-All [] (r ∷ rows) h g = (g.0, tt)

  pub compress-All :
      (rows : List (EventRow W)) (target : ℕ)
      → All P rows
      → All P (compress_mandatory f tokens rows target)
  unfolding compress_mandatory
  compress-All rows target h = elim (Bool-cases (leb (total f tokens rows) target)) [
    | inl t ↦ rw (t, compress_mandatory) h
    | inr t ↦
        let sorted = sort-All P (ranks_lower f tokens) rows h in
        rw (t, compress_mandatory)
          (or_first-All (fill f tokens target 0 (sort_down (ranks_lower f tokens) rows)).0 _
            (fill-All target 0 _ sorted) sorted)
  ]

  see-All :
      (r : EventRow W) (seen : List (EventRow W)) → P r → All P seen → All P (see f tokens r seen)
  unfolding see
  see-All r [] p h = (p, tt)
  see-All r (s ∷ seen) p h = elim (Bool-cases (str_eq s.payload.path r.payload.path)) [
    | inr t ↦ rw (t, see) (h.0, see-All r seen p h.1)
    | inl t ↦ elim (Bool-cases (f.lt s.weight r.weight)) [
      | inl u ↦ rw (t, see) (rw u (p, h.1))
      | inr u ↦ rw (t, see) (rw u h)
    ]
  ]

  pub see_all-All :
      (rows seen : List (EventRow W)) → All P rows → All P seen → All P (see_all f tokens rows seen)
  unfolding see_all
  see_all-All [] seen h g = g
  see_all-All (r ∷ rows) seen h g =
      see_all-All rows (see f tokens r seen) h.1 (see-All r seen h.0 g)
