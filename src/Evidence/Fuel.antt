-- ===== src/Evidence/Fuel.antt =====
-- storage/evidence.py: the walk of `load_full_transcript` ends within one round more than there are rows.
use cognikernel.Prelude.{
  ℕ, zero, suc, ◌+◌, ◌≡◌, ◌≤◌, ◌<◌, ◌≢◌, refl, err, out_of_rounds, sym, subst, Bool, true, false,
  not, Option, none, some, List, [], ◌∷◌, arith, ◌==◌, if◌then◌else◌, eq→≡, eq_self, any,
  count_where, find_key, length, Bool-cases, Option-cases, inl, inr,
}
use cognikernel.Evidence.Chain.{Codec, Evidence, find_evidence, walk_chain}

module _ {Blob : Type 0} where
  -- the rows that a walk has not visited
  abbrev unvisited : List ℕ → Evidence Blob → Bool
  unvisited chain r = not (any (λ v. v == r.id) chain)

  visited-more :
      (i : ℕ) (chain : List ℕ) (r : Evidence Blob)
      → unvisited (i ∷ chain) r ≡ true
      → unvisited chain r ≡ true
  unfolding any
  visited-more i chain r h = ground arith

  head-le :
      (i : ℕ) (chain : List ℕ) (r : Evidence Blob)
      → (if unvisited (i ∷ chain) r then 1 else 0) ≤ (if unvisited chain r then 1 else 0)
  head-le i chain r = elim (Bool-cases (unvisited (i ∷ chain) r)) [
    | inl t ↦ rw (t, visited-more i chain r t) (omega arith)
    | inr t ↦ rw t (omega arith)
  ]

  count-le :
      (i : ℕ) (chain : List ℕ) (rows : List (Evidence Blob))
      → count_where (unvisited (i ∷ chain)) rows ≤ count_where (unvisited chain) rows
  unfolding count_where
  count-le i chain [] = omega arith
  count-le i chain (r ∷ rows) =
      let head = head-le i chain r in let rest = count-le i chain rows in omega arith

  count-length :
      (p : Evidence Blob → Bool) (rows : List (Evidence Blob)) → count_where p rows ≤ length rows
  unfolding count_where
  count-length p [] = omega arith
  count-length p (r ∷ rows) = ground (arith, count-length p rows)

  visits :
      (i : ℕ) (chain : List ℕ) (r : Evidence Blob)
      → (r.id == i) ≡ true
      → any (λ v. v == i) chain ≡ false
      → (unvisited chain r ≡ true) × (unvisited (i ∷ chain) r ≡ false)
  visits i chain r t new =
      let p : i ≡ r.id = sym (eq→≡ r.id i t) in
      let fresh : any (λ v. v == r.id) chain ≡ false =
        subst (λ k. any (λ v. v == k) chain ≡ false) p new in
      let self : (i == r.id) ≡ true = subst (λ k. (i == k) ≡ true) p (eq_self i) in
      (rw fresh refl, unfold any in rw self refl)

  count-lt :
      (i : ℕ) (chain : List ℕ) (rows : List (Evidence Blob)) (r : Evidence Blob)
      → find_key (λ (x : Evidence Blob). x.id) i rows ≡ some r
      → any (λ v. v == i) chain ≡ false
      → count_where (unvisited (i ∷ chain)) rows < count_where (unvisited chain) rows
  unfolding count_where find_key
  count-lt i chain [] r h new = absurd (ground arith)
  count-lt i chain (x ∷ rows) r h new = elim (Bool-cases (x.id == i)) [
    | inl t ↦
        let (before, after) = visits i chain x t new in
        let rest = count-le i chain rows in rw (before, after) (omega arith)
    | inr t ↦
        let head = head-le i chain x in
        let rest = count-lt i chain rows r (rw (t, find_key) at h) new in omega arith
  ]

module _ {Blob : Type 0} (codec : Codec Blob) (rows : List (Evidence Blob)) where
  walk-same :
      (n m : ℕ) (cur : Option ℕ) (chain : List ℕ)
      → count_where (unvisited chain) rows < n
      → count_where (unvisited chain) rows < m
      → walk_chain codec rows n cur chain ≡ walk_chain codec rows m cur chain
  unfolding walk_chain
  walk-same n m none chain hn hm = refl
  walk-same zero m (some i) chain hn hm = absurd (omega arith)
  walk-same (suc n) zero (some i) chain hn hm = absurd (omega arith)
  walk-same (suc n) (suc m) (some i) chain hn hm = elim (Bool-cases (any (λ v. v == i) chain)) [
    | inl t ↦ rw t refl
    | inr t ↦ elim (Option-cases (find_evidence codec i rows)) [
      | inl e ↦ rw (t, e) refl
      | inr (r, e) ↦
          let less = count-lt i chain rows r (unfold find_evidence in e) t in
          rw (t, e) (walk-same n m r.prev_evidence_id (i ∷ chain) (omega arith) (omega arith))
    ]
  ]

  walk-ends :
      (n : ℕ) (cur : Option ℕ) (chain : List ℕ)
      → count_where (unvisited chain) rows < n
      → walk_chain codec rows n cur chain ≢ err out_of_rounds
  unfolding walk_chain
  walk-ends n none chain h e = cc
  walk-ends zero (some i) chain h e = absurd (omega arith)
  walk-ends (suc n) (some i) chain h e = elim (Bool-cases (any (λ v. v == i) chain)) [
    | inl t ↦ let never = rw (t, walk_chain) at e in cc
    | inr t ↦ elim (Option-cases (find_evidence codec i rows)) [
      | inl g ↦ let never = rw (t, g, walk_chain) at e in cc
      | inr (r, g) ↦
          let less = count-lt i chain rows r (unfold find_evidence in g) t in
          walk-ends n r.prev_evidence_id (i ∷ chain) (omega arith) (rw (t, g, walk_chain) at e)
    ]
  ]

  -- The walk along a chain of evidence, from whatever chunk and over whatever links, ends within one
  -- round more than there are rows: it reaches a root, or finds a chunk missing or a link back, and
  -- never spends its rounds; with more rounds it has the same result.
  pub walk_chain-enough_fuel :
      (n : ℕ) (cur : Option ℕ)
      → length rows + 1 ≤ n
      → (walk_chain codec rows n cur [] ≡ walk_chain codec rows (length rows + 1) cur [])
        × (walk_chain codec rows (length rows + 1) cur [] ≢ err out_of_rounds)
  walk_chain-enough_fuel n cur h =
      let bound = count-length (unvisited []) rows in
      (
        walk-same n (length rows + 1) cur [] (omega arith) (omega arith),
        walk-ends (length rows + 1) cur [] (omega arith),
      )
