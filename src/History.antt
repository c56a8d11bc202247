-- ===== src/History.antt =====
-- storage/provenance.py, storage/events.py: the listings of events, and what the store held at a time.
pub mod Later
pub mod Course
pub mod Snapshot
pub mod Chain
pub mod Walk
pub mod Connected
mod Tests
use cognikernel.Prelude.{
  ℕ, ◌+◌, String, Bool, true, false, not, ◌&&◌, ◌||◌, Option, none, some, List, [], ◌∷◌, ltb, leb,
  if◌then◌else◌, str_eq, is_some, select, update_where, ◌==◌, take,
}
use cognikernel.Events.Row.{EventType, same_type, EventRow, EventStore, Floats}

-- whether a time was recorded, at or before `at_ms`
unfoldable pub is_past : ℕ → Option ℕ → Bool
is_past at_ms none = false
is_past at_ms (some t) = leb t at_ms

-- the earlier of two times, where they are
unfoldable pub earliest_of : Option ℕ → Option ℕ → Option ℕ
earliest_of none b = b
earliest_of (some a) none = some a
earliest_of (some a) (some b) = some (if ltb a b then a else b)

module _ {W : Type 0} where
  unfoldable pub is_live : EventRow W → Bool
  is_live r = not (is_some r.superseded_by) && not r.archived

  -- The rows of a table come in the order of their ids: `ORDER BY id ASC`.
  unfoldable pub is_projected : String → ℕ → EventRow W → Bool
  unfolding is_live
  is_projected project after_id r = str_eq r.project_id project && ltb after_id r.id && is_live r

  unfoldable pub get_events_for_projection : String → ℕ → EventStore W → List (EventRow W)
  unfolding is_projected
  get_events_for_projection project after_id s = select (is_projected project after_id) s.events

  unfoldable pub get_events_by_session : String → String → EventStore W → List (EventRow W)
  get_events_by_session project session s =
      select (λ r. str_eq r.project_id project && str_eq r.session_id session) s.events

  unfoldable pub get_events_by_type : String → EventType → Bool → EventStore W → List (EventRow W)
  unfolding same_type
  get_events_by_type project type include_archived s =
      select
        (λ r.
          str_eq r.project_id project
          && same_type r.event_type type
          && (include_archived || not r.archived))
        s.events

  -- MAX(id), or 0
  unfoldable pub max_id : List (EventRow W) → ℕ
  max_id [] = 0
  max_id (r ∷ rows) = let rest = max_id rows in if ltb rest r.id then r.id else rest

  unfoldable pub get_max_event_id : String → EventStore W → ℕ
  unfolding max_id
  get_max_event_id project s = max_id (select (λ r. str_eq r.project_id project) s.events)

  unfoldable pub update_weight : Floats W → ℕ → W → EventStore W → EventStore W
  update_weight f event_id weight s = record s {
    events =
        update_where (λ r. r.id == event_id)
          (λ r. let e = r.event in record r { event = record e { weight = f.max f.zero weight } })
          s.events;
  }

  -- any(end <= at_ms for end in recorded_ends)
  unfoldable pub is_ended : ℕ → EventRow W → Bool
  unfolding is_past
  is_ended at_ms r =
      (is_some r.superseded_by && is_past at_ms r.superseded_at)
      || (r.archived && is_past at_ms r.archived_at)

  unfoldable pub has_unrecorded_end : EventRow W → Bool
  has_unrecorded_end r =
      (is_some r.superseded_by && not (is_some r.superseded_at))
      || (r.archived && not (is_some r.archived_at))

  unfoldable pub is_created_by : String → ℕ → EventRow W → Bool
  is_created_by project at_ms r = str_eq r.project_id project && leb r.created_at at_ms

  -- MIN(…) over rows
  unfoldable pub earliest : (EventRow W → Option ℕ) → List (EventRow W) → Option ℕ
  unfolding earliest_of
  earliest time [] = none
  earliest time (r ∷ rows) = earliest_of (time r) (earliest time rows)

pub record AsOfClaims (W : Type 0) : Type 0 where
  pub at : ℕ
  pub live : List (EventRow W)
  pub ended : List (EventRow W)
  pub unknown : List (EventRow W)
  pub earliest_claim : Option ℕ
  pub first_recorded_end : Option ℕ

unfoldable pub claims_as_of : {W : Type 0} → String → ℕ → EventStore W → AsOfClaims W
unfolding is_created_by is_ended has_unrecorded_end earliest earliest_of
claims_as_of project at_ms s =
    let rows = select (is_created_by project at_ms) s.events in
    let own = select (λ r. str_eq r.project_id project) s.events in
    record {
      at = at_ms;
      live = select (λ r. not (is_ended at_ms r) && not (has_unrecorded_end r)) rows;
      ended = select (is_ended at_ms) rows;
      unknown = select (λ r. not (is_ended at_ms r) && has_unrecorded_end r) rows;
      earliest_claim = earliest (λ r. some r.created_at) own;
      first_recorded_end =
          earliest_of (earliest (λ r. r.superseded_at) own) (earliest (λ r. r.archived_at) own);
    }
