-- ===== src/Projection/Reload.antt =====
-- storage/projections.py: the stored projection, its mark, and when it is built again.
use cognikernel.Prelude.{
  ℕ, String, Bool, true, not, ◌&&◌, Option, none, some, List, [], ◌∷◌, false, ◌||◌, ◌==◌, codes,
  ltb, if◌then◌else◌, str_eq, is_some, update_where, sort_down, Unicode,
}
use cognikernel.Events.Row.{EventType, Payload, Floats, EventStore}
use cognikernel.Merge.Run.{invalidate_projection}
use cognikernel.History.{get_events_for_projection, get_max_event_id, max_id}
use cognikernel.Projection.Consolidate.{Rec}
use cognikernel.Projection.Build.{value_of, put_value, Content, build_projection, all_recs}

-- A database: the events and the marks of the projections, and the other columns of the
-- projections, with the time at which each was built.
pub record Views (W : Type 0) : Type 0 where
  pub store : EventStore W
  pub contents : List (String × (ℕ × Content W))

-- a mark of -1 is below every id
unfoldable pub is_behind : Option (Option ℕ) → ℕ → Bool
is_behind none max_event = true
is_behind (some none) max_event = true
is_behind (some (some high_water)) max_event = ltb high_water max_event

-- the order of Python's texts, which is that of their code points
unfoldable pub text_before : List ℕ → List ℕ → Bool
text_before s [] = false
text_before [] (d ∷ ds) = true
text_before (c ∷ cs) (d ∷ ds) = ltb c d || (c == d && text_before cs ds)

module _ {W : Type 0} where
  -- What json.dumps(…, sort_keys=True) and json.loads make of the columns: the lists keep their
  -- order, and the mapping of the components comes back with its paths in order.
  unfoldable pub saved_form : Content W → Content W
  unfolding text_before sort_down
  saved_form c = record c {
    component_map = sort_down (λ a b. text_before (codes b.0) (codes a.0)) c.component_map;
  }

  unfoldable pub load_projection : String → Views W → Option (ℕ × Content W)
  unfolding value_of
  load_projection project v = value_of project v.contents

  unfoldable pub needs_rebuild : String → EventStore W → Bool
  unfolding is_behind value_of get_max_event_id
  needs_rebuild project s = is_behind (value_of project s.projections) (get_max_event_id project s)

  unfoldable pub save_projection : String → ℕ → ℕ → Content W → Views W → Views W
  unfolding put_value saved_form
  save_projection project built_at high_water c v = record {
    store = record v.store {
      projections = put_value project (some high_water) v.store.projections;
    };
    contents = put_value project (built_at, saved_form c) v.contents;
  }

  unfoldable pub invalidate : String → Views W → Views W
  unfolding invalidate_projection
  invalidate project v = record v { store = invalidate_projection project v.store }

  -- utils/decision_key.py: the rows that have no key yet
  unfoldable pub backfill_keys :
      (Payload → EventType → String) → String → EventStore W → EventStore W
  backfill_keys derive_decision_key project s = record s {
    events =
        update_where (λ r. str_eq r.project_id project && not (is_some r.decision_key))
          (λ r. record r {
            event = record r.event {
              decision_key = some (derive_decision_key r.payload r.event_type);
            };
          })
          s.events;
  }

  -- the records as events again, by id
  unfoldable pub projection_to_events : Content W → List (Rec W)
  unfolding all_recs
  projection_to_events c = sort_down (λ a b. ltb b.id a.id) (all_recs c)

module _ {W : Type 0} (f : Floats W) (compute_weight : Rec W → ℕ → List (String × String) → ℕ → W)
    (u : Unicode) (derive_decision_key : Payload → EventType → String) where
  -- what a build of the live events gives
  abbrev pub built_from : String → EventStore W → Content W
  built_from project s = build_projection f compute_weight u (get_events_for_projection project 0 s)

  unfoldable pub rebuild_projection : String → ℕ → Views W → Views W × (ℕ × Content W)
  unfolding backfill_keys save_projection
  rebuild_projection project now v =
      let s = backfill_keys derive_decision_key project v.store in
      let events = get_events_for_projection project 0 s in
      let c = build_projection f compute_weight u events in
      (save_projection project now (max_id events) c (record v { store = s }), (now, c))

  -- `none` where the assertion fails
  unfoldable pub load_or_rebuild : String → ℕ → Views W → Views W × Option (ℕ × Content W)
  unfolding rebuild_projection load_projection needs_rebuild
  load_or_rebuild project now v =
      if needs_rebuild project v.store
      then (let r = rebuild_projection project now v in (r.0, some r.1))
      else (v, load_projection project v)
