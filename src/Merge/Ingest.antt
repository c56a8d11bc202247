-- ===== src/Merge/Ingest.antt =====
-- storage/events.py, storage/evidence.py, delta/merge.py: how one event enters the log. A write
-- that breaks a foreign key raises; a duplicate of a content hash bumps the row that has it.
use cognikernel.Prelude.{
  ℕ, ◌+◌, String, Bool, true, false, not, ◌&&◌, ◌||◌, Option, none, some, List, [], ◌∷◌, ◌++◌,
  Result, ok, err, integrity_error, type_error, ◌>>=◌, ◌==◌, if◌then◌else◌, str_eq, codes, strip,
  any, select, update_where, first_where, find_key, is_some,
}
use cognikernel.Events.Row.{same_type, Event, EventRow, Provenance, EventStore}
use cognikernel.Merge.World.{World}

-- COALESCE(a, b)
unfoldable pub coalesce {ℓ} : {A : Type ℓ} → Option A → Option A → Option A
coalesce none b = b
coalesce (some a) b = some a

abbrev pub by_id : {W : Type 0} → ℕ → EventRow W → Bool
by_id i r = r.id == i

pub data Outcome : Type 0 where
  inserted updated : Outcome

unfoldable pub same_link : ℕ → ℕ → Provenance → Bool
same_link event_id evidence_id p = p.event_id == event_id && p.raw_evidence_id == evidence_id

unfoldable pub relink : String → Option ℕ → Provenance → Provenance
unfolding coalesce
relink version notes p = record p {
  extractor_version = version;
  transformation_notes = coalesce p.transformation_notes notes;
}

-- INSERT … ON CONFLICT(event_id, raw_evidence_id) DO UPDATE. The columns that no modelled caller
-- sets are NULL before and after, and are left out.
unfoldable pub upsert_link : ℕ → ℕ → String → Option ℕ → List Provenance → List Provenance
unfolding relink
upsert_link event_id evidence_id version notes rows =
    if any (same_link event_id evidence_id) rows
    then update_where (same_link event_id evidence_id) (relink version notes) rows
    else rows
      ++ record {
        event_id = event_id;
        raw_evidence_id = evidence_id;
        extractor_version = version;
        transformation_notes = notes;
      }
        ∷ []

module _ {W : Type 0} where
  -- the foreign key of `evidence_id`
  unfoldable pub evidence_exists : ℕ → EventStore W → Bool
  evidence_exists i s = any (λ e. e == i) s.evidence_ids

  unfoldable pub event_exists : ℕ → EventStore W → Bool
  event_exists i s = is_some (find_key (λ (r : EventRow W). r.id) i s.events)

  -- UNIQUE (project_id, content_hash)
  unfoldable pub same_hash : String → String → EventRow W → Bool
  same_hash project hash r = str_eq r.project_id project && str_eq r.content_hash hash

  unfoldable pub link_event_provenance :
      ℕ → ℕ → String → Option ℕ → EventStore W → Result (EventStore W)
  link_event_provenance event_id evidence_id version notes s =
      if not (evidence_exists evidence_id s) || not (event_exists event_id s)
      then err integrity_error
      else ok
          (record s { provenance = upsert_link event_id evidence_id version notes s.provenance })

  unfoldable pub link_if_evidence : ℕ → Option ℕ → EventStore W → Result (EventStore W)
  link_if_evidence event_id none s = ok s
  link_if_evidence event_id (some i) s = link_event_provenance event_id i "cognikernel.v2" none s

  unfoldable pub is_dangling : Option ℕ → EventStore W → Bool
  is_dangling none s = false
  is_dangling (some i) s = not (evidence_exists i s)

  unfoldable pub new_row : Event W → ℕ → EventRow W
  new_row e id = record {
    id = id;
    event = e;
    superseded_by = none;
    superseded_at = none;
    supersede_reason = none;
    archived = false;
    archived_at = none;
  }

  -- INSERT INTO events, and lastrowid
  unfoldable pub insert_row : Event W → EventStore W → Result (EventStore W × ℕ)
  unfolding new_row is_dangling
  insert_row e s =
      if any (same_hash e.project_id e.content_hash) s.events || is_dangling e.evidence_id s
      then err integrity_error
      else ok (
        record s { events = s.events ++ new_row e s.next_id ∷ []; next_id = s.next_id + 1 },
        s.next_id,
      )

  -- the statements that follow an INSERT that raised: `bump` of the row with the content hash
  unfoldable pub bump_duplicate :
      (EventRow W → EventRow W) → Event W → EventStore W → Result (EventStore W × ℕ)
  bump_duplicate bump e s = elim (first_where (same_hash e.project_id e.content_hash) s.events) [
    | none ↦ err type_error
    | some row ↦ ok (record s { events = update_where (by_id row.id) bump s.events }, row.id)
  ]

  -- `try` the INSERT, `except` bump the duplicate
  unfoldable pub insert_or_bump :
      (EventRow W → EventRow W) → Event W → EventStore W → Result (EventStore W × ℕ)
  insert_or_bump bump e s = elim (insert_row e s) [
    | ok done ↦ ok done
    | err _ ↦ bump_duplicate bump e s
  ]

module _ {W : Type 0} (w : World W) where
  -- mention_count + mention, MIN(weight + bump, max), COALESCE(evidence_id, …)
  unfoldable pub bumped_event : ℕ → W → Option ℕ → Event W → Event W
  unfolding coalesce
  bumped_event mention bump evidence e = record e {
    mention_count = e.mention_count + mention;
    weight = w.floats.min (w.floats.add e.weight bump) w.floats.max_event_weight;
    evidence_id = coalesce e.evidence_id evidence;
  }

  unfoldable pub bumped_row : ℕ → W → Option ℕ → EventRow W → EventRow W
  unfolding bumped_event
  bumped_row mention bump evidence r = record r {
    event = bumped_event mention bump evidence r.event;
  }

  -- storage/events.py
  unfoldable pub insert_event : Event W → EventStore W → Result (EventStore W × ℕ)
  insert_event e s = do
    (s', id) ← insert_or_bump (bumped_row 1 w.floats.dedup_increment e.evidence_id) e s
    s'' ← link_if_evidence id e.evidence_id s'
    ok (s'', id)

  -- F9: only a mention in another session counts
  unfoldable pub restated_row : Event W → EventRow W → EventRow W
  unfolding bumped_row
  restated_row e r =
      let cross_session = not (str_eq r.session_id e.session_id) in
      bumped_row (if cross_session then 1 else 0)
        (if cross_session then w.floats.dedup_increment else w.floats.zero) e.evidence_id r

  -- the `else` of the `try`, or its `except`
  unfoldable pub insert_outcome : Result (EventStore W × ℕ) → Outcome
  insert_outcome (ok _) = inserted
  insert_outcome (err _) = updated

  -- delta/merge.py: a duplicate is brought back from the archive too
  unfoldable pub insert_or_update : Event W → EventStore W → Result (EventStore W × Outcome × ℕ)
  unfolding restated_row insert_outcome
  insert_or_update e s = do
    let outcome = insert_outcome (insert_row e s)
    (s', id) ← insert_or_bump (λ r. record (restated_row e r) { archived = false }) e s
    s'' ← link_if_evidence id e.evidence_id s'
    ok (s'', outcome, id)

  -- the rows of a project and type that are neither archived, superseded, nor the event's own hash
  unfoldable pub is_live_peer : Event W → EventRow W → Bool
  is_live_peer e r =
      str_eq r.project_id e.project_id
      && same_type r.event_type e.event_type
      && not r.archived
      && not (is_some r.superseded_by)
      && not (str_eq r.content_hash e.content_hash)

  -- the loop over the candidates: the last of those that are as near as any
  unfoldable pub best_echo : String → List (EventRow W) → Option ℕ → W → Option ℕ
  best_echo description [] best_id best = best_id
  best_echo description (r ∷ rows) best_id best =
      let j = w.similarity.jaccard description r.payload.description in
      let nearer = not (w.floats.lt j best) in
      best_echo description rows (if nearer then some r.id else best_id)
        (if nearer then j else best)

  abbrev is_blank : String → Bool
  is_blank text = elim (strip (codes text)) [ [] ↦ true | _ ∷ _ ↦ false ]

  unfoldable pub find_echo : Event W → EventStore W → Option ℕ
  unfolding best_echo is_live_peer
  find_echo e s =
      if is_blank e.payload.description
      then none
      else best_echo e.payload.description (select (is_live_peer e) s.events) none
          w.similarity.echo_jaccard

  unfoldable pub bump_event : ℕ → Event W → EventStore W → Result (EventStore W)
  unfolding restated_row
  bump_event event_id e s =
      link_if_evidence event_id e.evidence_id
        (record s { events = update_where (by_id event_id) (restated_row e) s.events })
