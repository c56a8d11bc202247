-- ===== src/Events/Links.antt =====
-- storage/events.py, delta/supersede.py: the links that say which event replaced which, and the
-- guard against cycles. The clock reading of an operation is its argument `now`. The transaction
-- that a call opens makes its walk and its write one step of the store.
use cognikernel.Prelude.{
  ℕ, zero, suc, ◌+◌, String, Bool, true, false, Option, none, some, List, [], ◌∷◌, ◌==◌,
  if◌then◌else◌, any, find_key, update_where,
}
use cognikernel.Events.Row.{EventRow, EventStore}

-- _MAX_CYCLE_WALK
unfoldable pub max_cycle_walk : ℕ
max_cycle_walk = 10_000

module _ {W : Type 0} where
  -- row["superseded_by"] if row is not None else None
  unfoldable pub superseded_of : Option (EventRow W) → Option ℕ
  superseded_of none = none
  superseded_of (some r) = r.superseded_by

  unfoldable pub link : List (EventRow W) → ℕ → Option ℕ
  unfolding superseded_of
  link rows i = superseded_of (find_key (λ (r : EventRow W). r.id) i rows)

  -- The loop of `set_superseded_by`: whether it refuses. It has `n` rounds left.
  unfoldable pub closes_cycle : List (EventRow W) → ℕ → ℕ → ℕ → List ℕ → Bool
  closes_cycle rows event_id zero cur seen = false
  closes_cycle rows event_id (suc n) cur seen = elim (cur == event_id) [
    | true ↦ true
    | false ↦ elim (any (λ x. x == cur) seen) [
      | true ↦ false
      | false ↦ elim (link rows cur) [
        | none ↦ false
        | some next ↦ closes_cycle rows event_id n next (cur ∷ seen)
      ]
    ]
  ]

  unfoldable pub superseded_row : ℕ → ℕ → Option String → EventRow W → EventRow W
  superseded_row by_id now reason r = record r {
    superseded_by = some by_id;
    superseded_at = some now;
    supersede_reason = reason;
  }

  -- the store afterwards, and whether the link was written
  unfoldable pub set_superseded_by : ℕ → ℕ → ℕ → Option String → EventStore W → EventStore W × Bool
  unfolding superseded_row
  set_superseded_by event_id by_id now reason s =
      if event_id == by_id
      then (s, false)
      else if closes_cycle s.events event_id max_cycle_walk by_id []
      then (s, false)
      else (
        record s {
          events = update_where (λ r. r.id == event_id) (superseded_row by_id now reason) s.events;
        },
        true,
      )

  unfoldable pub mark_superseded : ℕ → ℕ → ℕ → Option String → EventStore W → EventStore W
  mark_superseded event_id by_id now reason s = (set_superseded_by event_id by_id now reason s).0

  -- the number of links written, and the store
  unfoldable pub apply_supersession :
      ℕ → ℕ → Option String → List ℕ → EventStore W → EventStore W × ℕ
  apply_supersession new_id now reason [] s = (s, 0)
  apply_supersession new_id now reason (old ∷ olds) s =
      let (s', written) = set_superseded_by old new_id now reason s in
      let (s'', n) = apply_supersession new_id now reason olds s' in
      (s'', (if written then 1 else 0) + n)

  unfoldable pub mark_archived : ℕ → ℕ → EventStore W → EventStore W
  mark_archived event_id now s = record s {
    events =
        update_where (λ r. r.id == event_id)
          (λ r. record r { archived = true; archived_at = some now }) s.events;
  }

  unfoldable pub get_event_by_id : ℕ → EventStore W → Option (EventRow W)
  get_event_by_id event_id s = find_key (λ (r : EventRow W). r.id) event_id s.events
