-- ===== src/Compression/Chosen.antt =====
-- compression/greedy.py: what the parts of a selection are, and what is left out of it.
use cognikernel.Prelude.{
  ℕ, ◌+◌, ◌≡◌, ◌<◌, ◌⊎◌, subst, sym, refl, true, false, List, [], ◌∷◌, Bool, sort_down, arith, leb,
  select, All, All-map, Bool-cases, inl, inr, In, str_eq, sort-All-of, any, All-of_select, ◌==◌,
}
use cognikernel.Events.Row.{
  EventType, Floats, EventRow, component_status, constraint_hard, approach_abandoned_do_not_retry,
  same_type,
}
use cognikernel.Merge.Decay.{is_protected}
use cognikernel.Compression.Greedy.{total, fill, is_live, is_component, is_mandatory, is_other}

-- A hard constraint, an approach that is not to be tried again, or an event that the user stated.
pub IsMandatory : {W : Type 0} → EventRow W → Type 0
IsMandatory r =
    (r.event_type ≡ constraint_hard)
    ⊎ (r.event_type ≡ approach_abandoned_do_not_retry)
    ⊎ (str_eq r.payload.authority "user_stated" ≡ true)

protected-cases :
    (t : EventType)
    → is_protected t ≡ true
    → (t ≡ constraint_hard) ⊎ (t ≡ approach_abandoned_do_not_retry)
unfolding is_protected
protected-cases constraint_hard h = inl refl
protected-cases approach_abandoned_do_not_retry h = inr refl
protected-cases _ h = cc

component-type : (t : EventType) → same_type t component_status ≡ true → t ≡ component_status
unfolding same_type
component-type component_status h = refl
component-type _ h = absurd (ground arith)

module _ {W : Type 0} (f : Floats W) (tokens : EventRow W → ℕ) where
  pub picked-IsMandatory : (r : EventRow W) → is_mandatory f tokens r ≡ true → IsMandatory r
  unfolding is_mandatory IsMandatory
  picked-IsMandatory r h = elim (Bool-cases (is_protected r.event_type)) [
    | inl t ↦ elim (protected-cases r.event_type t) [ inl e ↦ inl e | inr e ↦ inr (inl e) ]
    | inr t ↦ inr (inr (rw t at h))
  ]

  pub component-status :
      (r : EventRow W) → is_component f tokens r ≡ true → r.event_type ≡ component_status
  unfolding is_component
  component-status r h = component-type r.event_type (ground arith)

  module _ (limit used : ℕ) (r : EventRow W) (rows : List (EventRow W)) where
    fill-taken :
        leb (used + tokens r) limit ≡ true
        → (fill f tokens limit used (r ∷ rows)).0
          ≡ r ∷ (fill f tokens limit (used + tokens r) rows).0
    unfolding fill
    fill-taken t = rw (t, fill) refl

    fill-left :
        leb (used + tokens r) limit ≡ false
        → (fill f tokens limit used (r ∷ rows)).0 ≡ (fill f tokens limit used rows).0
    unfolding fill
    fill-left t = rw (t, fill) refl

  -- `r` is among the kept, or would exceed the limit beside them
  abbrev pub IsPlaced : ℕ → ℕ → List (EventRow W) → EventRow W → Type 0
  IsPlaced limit used kept r = In r kept ⊎ (limit < used + total f tokens kept + tokens r)

  still-IsPlaced :
      (limit used : ℕ) (r x : EventRow W) (kept : List (EventRow W))
      → IsPlaced limit (used + tokens r) kept x
      → IsPlaced limit used (r ∷ kept) x
  unfolding total
  still-IsPlaced limit used r x kept (inl m) = inl (inr m)
  still-IsPlaced limit used r x kept (inr over) = inr (omega (arith, over))

  -- a fill leaves out only what would not fit beside all that it keeps
  pub fill-IsPlaced :
      (limit used : ℕ) (rows : List (EventRow W))
      → All (IsPlaced limit used (fill f tokens limit used rows).0) rows
  fill-IsPlaced limit used [] = tt
  fill-IsPlaced limit used (r ∷ rows) = elim (Bool-cases (leb (used + tokens r) limit)) [
    | inl t ↦
        subst (λ kept. All (IsPlaced limit used kept) (r ∷ rows))
          (sym (fill-taken limit used r rows t))
          (
            inl (inl refl),
            All-map _ _ rows
                (λ x h.
                  still-IsPlaced limit used r x (fill f tokens limit (used + tokens r) rows).0 h)
                (fill-IsPlaced limit (used + tokens r) rows),
          )
    | inr t ↦
        subst (λ kept. All (IsPlaced limit used kept) (r ∷ rows))
          (sym (fill-left limit used r rows t)) (inr (ground arith), fill-IsPlaced limit used rows)
  ]

  pub is_other-cases :
      (components : List (EventRow W)) (r : EventRow W)
      → is_other f tokens components r ≡ false
      → IsMandatory r ⊎ (any (λ c. c.id == r.id) components ≡ true)
  unfolding is_other
  is_other-cases components r h = elim (Bool-cases (is_mandatory f tokens r)) [
    | inl t ↦ inl (picked-IsMandatory r t)
    | inr t ↦ inr (ground arith)
  ]

  -- what becomes of an event of the list
  abbrev pub IsSettled : ℕ → ℕ → List (EventRow W) → List (EventRow W) → EventRow W → Type 0
  IsSettled limit used components kept r =
      (r.archived ≡ true)
      ⊎ IsMandatory r
      ⊎ (any (λ c. c.id == r.id) components ≡ true)
      ⊎ IsPlaced limit used kept r

  pub events-IsSettled :
      (limit used : ℕ) (components kept events : List (EventRow W))
      (less : EventRow W → EventRow W → Bool)
      → All (IsPlaced limit used kept) (
          sort_down less (select (is_other f tokens components) (select (is_live f tokens) events)))
      → All (IsSettled limit used components kept) events
  events-IsSettled limit used components kept events less h =
      let placed =
        All-of_select _ (is_other f tokens components) (select (is_live f tokens) events)
          (sort-All-of _ less _ h) in
      All-map
        (λ r.
          is_live f tokens r ≡ true
          → is_other f tokens components r ≡ true
          → IsPlaced limit used kept r)
        _ events
        (λ r k. elim (Bool-cases r.archived) [
          | inl t ↦ inl t
          | inr t ↦ elim (Bool-cases (is_other f tokens components r)) [
            | inl u ↦ inr (inr (inr (k (unfold is_live in rw t refl) u)))
            | inr u ↦ elim (is_other-cases components r u) [
              | inl m ↦ inr (inl m)
              | inr m ↦ inr (inr (inl m))
            ]
          ]
        ])
        (All-of_select _ (is_live f tokens) events placed)
