-- ===== src/Caches/Shown.antt =====
-- storage/render_ledger.py: what a session was shown is listed, and recording it again adds nothing.
use cognikernel.Prelude.{
  ℕ, ◌≡◌, refl, String, Bool, true, not, ◌&&◌, Option, List, [], ◌∷◌, ◌++◌, arith, if◌then◌else◌,
  str_eq, eq_refl, any, Bool-cases, inl, inr, All,
}
use cognikernel.Caches.Writes.{
  Rendered, is_channel, is_rendering_of, record_each, record_rendered, present,
}

any-append :
    {A : Type 0} (p : A → Bool) (xs ys : List A) → any p xs ≡ true → any p (xs ++ ys) ≡ true
unfolding any
any-append p [] ys e = let never = e in cc
any-append p (x ∷ xs) ys e = ground (arith, any-append p xs ys)

any-last :
    {A : Type 0} (p : A → Bool) (xs : List A) (x : A) → p x ≡ true → any p (xs ++ x ∷ []) ≡ true
unfolding any
any-last p [] x e = ground arith
any-last p (y ∷ xs) x e = ground (arith, any-last p xs x e)

module _ (project session channel : String) (now : ℕ) (allowed : is_channel channel ≡ true) where
  abbrev has : ℕ → List Rendered → Bool
  has id = any (is_rendering_of project session id channel)

  -- what a list holds is kept
  record_each-keeps :
      (ids : List ℕ) (id : ℕ) (rows : List Rendered)
      → has id rows ≡ true
      → has id (record_each project session ids channel now rows).0 ≡ true
  unfolding record_each
  record_each-keeps [] id rows h = h
  record_each-keeps (i ∷ ids) id rows h = elim (Bool-cases (has i rows)) [
    | inl t ↦ rw (t, allowed) (record_each-keeps ids id rows h)
    | inr t ↦ rw (t, allowed) (record_each-keeps ids id _ (any-append _ rows _ h))
  ]

  -- an id is there after its round
  abbrev after : ℕ → List Rendered → List Rendered
  after id rows =
      if is_channel channel && not (has id rows)
      then rows
        ++ record {
          project_id = project;
          session_id = session;
          event_id = id;
          channel = channel;
          rendered_at = now;
        }
          ∷ []
      else rows

  after-has : (id : ℕ) (rows : List Rendered) → has id (after id rows) ≡ true
  unfolding is_rendering_of
  after-has id rows = elim (Bool-cases (has id rows)) [
    | inl t ↦ rw (t, allowed) t
    | inr t ↦
        rw (t, allowed)
          (any-last (is_rendering_of project session id channel) rows _
            (ground (arith, eq_refl project, eq_refl session, eq_refl channel)))
  ]

  record_each-has :
      (ids : List ℕ) (rows : List Rendered)
      → All (λ i. has i (record_each project session ids channel now rows).0 ≡ true) ids
  unfolding record_each
  record_each-has [] rows = tt
  record_each-has (i ∷ ids) rows = (
    record_each-keeps ids i (after i rows) (after-has i rows),
    record_each-has ids (after i rows),
  )

  -- ids that are there are ignored
  record_each-nothing :
      (ids : List ℕ) (rows : List Rendered)
      → All (λ i. has i rows ≡ true) ids
      → record_each project session ids channel now rows ≡ (rows, 0)
  unfolding record_each
  record_each-nothing [] rows h = refl
  record_each-nothing (i ∷ ids) rows h =
      rw (h.0, allowed) (rw (record_each-nothing ids rows h.1) refl)

-- What a session was shown on a channel that the table allows is recorded once: recording the same
-- ids again, at whatever time, changes no row and reports none.
pub record_rendered-again :
    (project session channel : String) (ids : List (Option ℕ)) (now later : ℕ)
    (rows : List Rendered)
    → is_channel channel ≡ true
    → let recorded = (record_rendered project session ids channel now rows).0 in
      record_rendered project session ids channel later recorded ≡ (recorded, 0)
unfolding record_rendered
record_rendered-again project session channel ids now later rows allowed =
    elim (Bool-cases (str_eq session "")) [
      | inl t ↦ rw t refl
      | inr t ↦ rw t (
          record_each-nothing project session channel later allowed (present ids) _
            (record_each-has project session channel now allowed (present ids) rows))
    ]
