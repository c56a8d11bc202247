-- ===== src/Projection/Current.antt =====
-- storage/projections.py: a stored projection that is loaded is what a build of the live events
-- gives.
use cognikernel.Prelude.{
  ℕ, ◌≡◌, refl, sym, ap, ◌∙◌, String, Bool, true, false, Option, none, some, List, [], ◌∷◌, str_eq,
  eq_refl, Bool-cases, inl, inr, if◌then◌else◌, update_where, Unicode,
}
use cognikernel.Events.Row.{Event, EventStore}
use cognikernel.Merge.World.{World}
use cognikernel.Merge.Gate.{GroundingContext}
use cognikernel.Merge.Run.{
  Stats, Progress, going, failed, invalidate_projection, execute_merge, merge_end, is_merged,
}
use cognikernel.History.{get_events_for_projection}
use cognikernel.Projection.Consolidate.{Rec}
use cognikernel.Projection.Build.{value_of, put_value, Content}
use cognikernel.Projection.Reload.{
  Views, is_behind, needs_rebuild, save_projection, rebuild_projection, backfill_keys, saved_form,
  load_projection, built_from, load_or_rebuild,
}

module _ {A : Type 0} where
  value_of-put_value :
      (k : String) (a : A) (rows : List (String × A)) → value_of k (put_value k a rows) ≡ some a
  unfolding value_of put_value
  value_of-put_value k a [] = rw (eq_refl k) refl
  value_of-put_value k a ((j, b) ∷ rows) = elim (Bool-cases (str_eq j k)) [
    | inl t ↦ rw (t, value_of) (rw t refl)
    | inr t ↦ rw (t, value_of) (rw t (value_of-put_value k a rows))
  ]

module _ where
  invalidate-behind :
      (project : String) (rows : List (String × Option ℕ)) (n : ℕ)
      → is_behind
          (value_of project (update_where (λ p. str_eq p.0 project) (λ p. (p.0, none)) rows))
          n
        ≡ true
  unfolding is_behind value_of update_where
  invalidate-behind project [] n = refl
  invalidate-behind project ((j, m) ∷ rows) n = elim (Bool-cases (str_eq j project)) [
    | inl t ↦ rw (t, value_of) (rw t refl)
    | inr t ↦ rw (t, value_of) (rw t (invalidate-behind project rows n))
  ]

module _ {W : Type 0} where
  -- an invalidated projection is built again
  invalidate_projection-needs_rebuild :
      (project : String) (s : EventStore W)
      → needs_rebuild project (invalidate_projection project s) ≡ true
  unfolding needs_rebuild invalidate_projection
  invalidate_projection-needs_rebuild project s = invalidate-behind project s.projections _

-- Where the stored projection would be loaded, it is the saved form of what a build of the live
-- events gives.
IsCurrent : {W : Type 0} → (EventStore W → Content W) → String → Views W → Type 0
IsCurrent built project v =
    needs_rebuild project v.store ≡ false
    → (built_at : ℕ) × (load_projection project v ≡ some (built_at, saved_form (built v.store)))

module _ {W : Type 0} (w : World W) (embed_events use_cross_encoder : Bool)
    (ground_context : Option GroundingContext) where
  -- a merge that ends without raising invalidates the projection
  merge_end-needs_rebuild :
      (project session : String) (p : Progress W) (st : Stats) (now : ℕ)
      → (merge_end w embed_events use_cross_encoder ground_context now project session p).1
        ≡ some st
      → needs_rebuild project
          (merge_end w embed_events use_cross_encoder ground_context now project session p).0
        ≡ true
  unfolding merge_end
  merge_end-needs_rebuild project session (going t st') st now e =
      invalidate_projection-needs_rebuild project _
  merge_end-needs_rebuild project session (failed t) st now e = let never = e in cc

module _ {W : Type 0} (w : World W) (compute_weight : Rec W → ℕ → List (String × String) → ℕ → W)
    (u : Unicode) where
  abbrev pub load : String → ℕ → Views W → Views W × Option (ℕ × Content W)
  load = load_or_rebuild w.floats compute_weight u w.derive_decision_key

  abbrev pub built : String → EventStore W → Content W
  built = built_from w.floats compute_weight u w.derive_decision_key

  -- What happens to a project's database: projections are loaded or built, and merges run to
  -- their end.
  pub data Use (project : String) (v : Views W) : Views W → Type 0 where
    unused : Use project v v
    loading : {v' : Views W} (now : ℕ) → Use project v v' → Use project v (load project now v').0
    merging :
        {v' : Views W} (embed_events use_cross_encoder : Bool) (ground : Option GroundingContext)
        (now : ℕ) (session : String) (e : Event W) (es : List (Event W)) (st : Stats)
        → Use project v v'
        → e.project_id ≡ project
        → (execute_merge w embed_events use_cross_encoder ground now session (e ∷ es) v'.store).1
          ≡ some st
        → Use project v (record v' {
          store =
              (execute_merge w embed_events use_cross_encoder ground now session
                (e ∷ es)
                v'.store).0;
        })

  abbrev rebuild : String → ℕ → Views W → Views W × (ℕ × Content W)
  rebuild = rebuild_projection w.floats compute_weight u w.derive_decision_key

  -- what is returned and what is saved
  rebuild-built :
      (project : String) (now : ℕ) (v : Views W)
      → (rebuild project now v).1 ≡ (now, built project (rebuild project now v).0.store)
  unfolding rebuild_projection save_projection backfill_keys get_events_for_projection
  rebuild-built project now v = refl

  rebuild-load :
      (project : String) (now : ℕ) (v : Views W)
      → load_projection project (rebuild project now v).0
        ≡ some (now, saved_form (rebuild project now v).1.1)
  unfolding rebuild_projection save_projection load_projection
  rebuild-load project now v = value_of-put_value project _ v.contents

  -- What a load returns: what a build of the live events gives, where the projection was behind,
  -- and its saved form otherwise.
  abbrev IsReturned : String → Views W → Views W × Option (ℕ × Content W) → Type 0
  IsReturned project v r =
      (built_at : ℕ) × (r.1
        ≡ some (
          built_at,
          if needs_rebuild project v.store
              then built project r.0.store
              else saved_form (built project r.0.store),
        ))

  load-IsCurrent :
      (project : String) (now : ℕ) (v : Views W)
      → IsCurrent (built project) project v
      → let r = load project now v in IsReturned project v r × IsCurrent (built project) project r.0
  unfolding load_or_rebuild IsCurrent
  load-IsCurrent project now v h = elim (Bool-cases (needs_rebuild project v.store)) [
    | inl t ↦
        let same = rebuild-built project now v in
        rw t (
          (now, ap some same),
          λ e. (
            now,
            rebuild-load project now v
                ∙ ap (λ x. some (now, saved_form x)) (ap (λ (x : ℕ × Content W). x.1) same),
          ),
        )
    | inr t ↦ rw t (h t, h)
  ]

  merge-IsCurrent :
      (embed_events use_cross_encoder : Bool) (ground : Option GroundingContext) (now : ℕ)
      (project session : String) (e : Event W) (es : List (Event W)) (st : Stats) (v : Views W)
      → IsCurrent (built project) project v
      → e.project_id ≡ project
      → (execute_merge w embed_events use_cross_encoder ground now session (e ∷ es) v.store).1
        ≡ some st
      → IsCurrent (built project) project (record v {
        store =
            (execute_merge w embed_events use_cross_encoder ground now session (e ∷ es) v.store).0;
      })
  unfolding execute_merge IsCurrent
  merge-IsCurrent embed_events use_cross_encoder ground now project session e es st v h own done =
      elim (Bool-cases (is_merged e.evidence_id v.store)) [
        | inl t ↦ rw t h
        | inr t ↦
            rw (t, own)
              (λ fresh.
                let end =
                  merge_end-needs_rebuild w embed_events use_cross_encoder ground project session _
                    st now (rw (t, own) at done) in
                let never = sym fresh ∙ end in cc)
      ]

  use-IsCurrent :
      (project : String) (v v' : Views W)
      → IsCurrent (built project) project v
      → Use project v v'
      → IsCurrent (built project) project v'
  use-IsCurrent project v v' h unused = h
  use-IsCurrent project v v' h (loading {v' = x} now run) =
      (load-IsCurrent project now x (use-IsCurrent project v x h run)).1
  use-IsCurrent project v v' h (merging {v' = x} a b ground now session e es st run own done) =
      merge-IsCurrent a b ground now project session e es st x (use-IsCurrent project v x h run) own
        done

  -- However a database that has no projection of a project is used, by loads and by merges of the
  -- project that end without raising, load_or_rebuild then returns what a build of the live events
  -- of the store that it leaves gives, where the projection was behind, and otherwise the same with
  -- the paths of its components in order, so a stored projection is never out of date. The weight that
  -- a record gets is a function of what the formula is given; the symbol graph, which it also reads,
  -- does not change between a build and a load.
  pub load_or_rebuild-current :
      (project : String) (v v' : Views W) (now : ℕ)
      → value_of project v.store.projections ≡ none
      → Use project v v'
      → let r = load project now v' in
        let content = built project r.0.store in
        (built_at : ℕ) × (r.1
          ≡ some (built_at, if needs_rebuild project v'.store then content else saved_form content))
  load_or_rebuild-current project v v' now empty run =
      let start : IsCurrent (built project) project v =
        unfold IsCurrent needs_rebuild is_behind in λ fresh. let never = rw empty at fresh in cc in
      (load-IsCurrent project now v' (use-IsCurrent project v v' start run)).0
