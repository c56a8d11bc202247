-- ===== src/Merge/Archive.antt =====
-- delta/decay.py, delta/merge.py: decay runs once for each session and spares what is protected.
use cognikernel.Prelude.{
  ℕ, ◌≡◌, ◌⊎◌, refl, ap, ◌∙◌, String, true, false, Option, some, List, [], ◌∷◌, ◌++◌, inl, inr,
  arith, if◌then◌else◌, eq_refl, Bool-cases, find_key, find_key-update_where, first_where, select,
  delete_where,
}
use mathlib.Core.Option
use cognikernel.Events.Row.{Floats, EventRow, EventStore}
use cognikernel.Merge.Decay.{
  meta_key, has_meta_key, meta_value, set_meta, is_protected, already_decayed, is_decaying,
  decayed_row, is_stale, decay_pass, apply_decay_pass,
}

first-append_new :
    (key value : String) (rows : List (String × String))
    → first_where (has_meta_key key) (delete_where (has_meta_key key) rows ++ (key, value) ∷ [])
      ≡ some (key, value)
unfolding first_where select has_meta_key
first-append_new key value [] = ground (arith, eq_refl key)
first-append_new key value ((k, v) ∷ rows) = ground (arith, first-append_new key value rows)

-- what was written last is what is read
meta_value-set_meta :
    (key value : String) (rows : List (String × String))
    → meta_value key (set_meta key value rows) ≡ some value
unfolding meta_value set_meta
meta_value-set_meta key value rows = rw (first-append_new key value rows, meta_value)

already_decayed_after :
    (project session : String) (rows : List (String × String))
    → already_decayed project session (set_meta (meta_key project) session rows) ≡ true
unfolding already_decayed
already_decayed_after project session rows =
    rw (meta_value-set_meta (meta_key project) session rows, already_decayed) (eq_refl session)

module _ {W : Type 0} (f : Floats W) (stamp : Option ℕ → Option ℕ) (project session : String)
    (s : EventStore W) where
  decay_pass-done :
      already_decayed project session s.meta ≡ true → decay_pass f stamp project session s ≡ (s, 0)
  unfolding decay_pass
  decay_pass-done t = rw t

  decay_pass-marks :
      already_decayed project session (decay_pass f stamp project session s).0.meta ≡ true
  unfolding decay_pass
  decay_pass-marks = elim (Bool-cases (already_decayed project session s.meta)) [
    | inl t ↦ rw (t, decay_pass) t
    | inr t ↦ rw (t, decay_pass) (already_decayed_after project session s.meta)
  ]

  abbrev faded : EventRow W → EventRow W
  faded r = if is_decaying f project session r then decayed_row f r else r

  abbrev swept : EventRow W → EventRow W
  swept r =
      if is_stale f project r
      then record r { archived = true; archived_at = stamp r.archived_at }
      else r

  find-decay_pass :
      (i : ℕ)
      → already_decayed project session s.meta ≡ false
      → find_key (λ (r : EventRow W). r.id) i (decay_pass f stamp project session s).0.events
        ≡ Option.map swept (Option.map faded (find_key (λ (r : EventRow W). r.id) i s.events))
  unfolding decay_pass
  find-decay_pass i t =
      rw (t, decay_pass)
        (find_key-update_where (λ (r : EventRow W). r.id) (is_stale f project) _ i _ (λ r. refl)
          ∙ ap (Option.map swept) (
              find_key-update_where (λ (r : EventRow W). r.id) (is_decaying f project session)
                (decayed_row f) i s.events (λ r. unfold decayed_row in refl)))

  swept-protected :
      (r : EventRow W)
      → (is_protected r.event_type ≡ false) ⊎ ((swept (faded r)).archived ≡ r.archived)
  unfolding is_stale decayed_row
  swept-protected r = elim (Bool-cases (is_protected r.event_type)) [
    | inl t ↦ inr (ground arith)
    | inr t ↦ inl t
  ]

  swept-link : (r : EventRow W) → (swept (faded r)).superseded_by ≡ r.superseded_by
  unfolding decayed_row
  swept-link r = ground arith

-- A second decay pass of a project for the same session changes nothing and archives nothing,
-- whenever it runs.
pub apply_decay_pass-again :
    {W : Type 0} (f : Floats W) (now now' : ℕ) (project session : String) (s : EventStore W)
    → apply_decay_pass f now' project session (apply_decay_pass f now project session s).0
      ≡ ((apply_decay_pass f now project session s).0, 0)
unfolding apply_decay_pass
apply_decay_pass-again f now now' project session s =
    decay_pass-done f (λ _. some now') project session
      (decay_pass f (λ _. some now) project session s).0
      (decay_pass-marks f (λ _. some now) project session s)

-- A pass leaves every row in the table with its link, and a row of a protected type (a hard
-- constraint, an approach not to retry) archived exactly if it was before, however low its weight.
pub apply_decay_pass-protects :
    {W : Type 0} (f : Floats W) (now : ℕ) (project session : String) (s : EventStore W) (i : ℕ)
    (r : EventRow W)
    → find_key (λ (r : EventRow W). r.id) i s.events ≡ some r
    → (r' : EventRow W) × (find_key
          (λ (r : EventRow W). r.id)
          i
          (apply_decay_pass f now project session s).0.events
        ≡ some r')
      × (r'.superseded_by ≡ r.superseded_by)
      × ((is_protected r.event_type ≡ false) ⊎ (r'.archived ≡ r.archived))
unfolding apply_decay_pass
apply_decay_pass-protects {W} f now project session s i r e =
    elim (Bool-cases (already_decayed project session s.meta)) [
      | inl t ↦ (r, rw (decay_pass-done f (λ _. some now) project session s t) e, refl, inr refl)
      | inr t ↦ (
        swept f (λ _. some now) project session s (faded f (λ _. some now) project session s r),
        find-decay_pass f (λ _. some now) project session s i t ∙ rw e,
        swept-link f (λ _. some now) project session s r,
        swept-protected f (λ _. some now) project session s r,
      )
    ]
