-- ===== src/Events/Row.antt =====
-- model.py and storage/migrations/001_initial.sql: events, the rows that store them, and the
-- tables that a merge reads and writes. Weights are floating-point numbers: they are a type with
-- the operations that the program makes of them.
use cognikernel.Prelude.{ℕ, String, Bool, Option, List, ◌==◌}

pub data EventType : Type 0 where
  decision constraint_hard constraint_soft component_status : EventType
  approach_abandoned approach_abandoned_do_not_retry thread_open thread_close : EventType

abbrev type_code : EventType → ℕ
type_code decision = 0
type_code constraint_hard = 1
type_code constraint_soft = 2
type_code component_status = 3
type_code approach_abandoned = 4
type_code approach_abandoned_do_not_retry = 5
type_code thread_open = 6
type_code thread_close = 7

-- a.event_type == b.event_type
unfoldable pub same_type : EventType → EventType → Bool
same_type a b = type_code a == type_code b

-- The keys of a payload that the modelled code reads or writes. A key that is read with a default
-- of "" is that text where it is missing.
pub record Payload : Type 0 where
  pub description : String
  pub authority : String
  pub source_role : String
  pub provenance : String
  pub path : String
  pub status : Option String
  pub reason : Option String
  pub dependencies : Option String
  pub cascaded_from : Option ℕ
  pub grounding : Option String
  pub quality : Option String

-- Floating-point weights, with the constants of storage/events.py, delta/decay.py and
-- quality/detectors.py. `lt` and `eq` are the tests of
-- the hardware, false where either number is a NaN.
pub record Floats (W : Type 0) : Type 0 where
  pub add : W → W → W
  pub mul : W → W → W
  pub min : W → W → W
  pub max : W → W → W
  pub lt : W → W → Bool
  pub eq : W → W → Bool
  pub zero : W
  pub one : W
  pub dedup_increment : W
  pub max_event_weight : W
  pub archive_threshold : W
  pub decay_factor : W
  pub downgrade_factor : W
  pub cascade_weight : W

-- A candidate event, before it has a row.
pub record Event (W : Type 0) : Type 0 where
  pub project_id : String
  pub session_id : String
  pub event_type : EventType
  pub payload : Payload
  pub content_hash : String
  pub evidence_id : Option ℕ
  pub weight : W
  pub mention_count : ℕ
  pub created_at : ℕ
  pub decision_key : Option String
  pub captured_at_sha : Option String

-- A row of `events`.
pub record EventRow (W : Type 0) : Type 0 where
  pub id : ℕ
  pub event : Event W
  pub open event use *
  pub superseded_by : Option ℕ
  pub superseded_at : Option ℕ
  pub supersede_reason : Option String
  pub archived : Bool
  pub archived_at : Option ℕ

-- A row of `event_provenance`. The only note that is written is "cascaded from event n".
pub record Provenance : Type 0 where
  pub event_id : ℕ
  pub raw_evidence_id : ℕ
  pub extractor_version : String
  pub transformation_notes : Option ℕ

-- A row of `quality_telemetry`: how often a rule of the gate fired in a session.
pub record Firing : Type 0 where
  pub project_id : String
  pub session_id : String
  pub rule_id : String
  pub count : ℕ

-- A row of `extraction_failures`.
pub record Failure : Type 0 where
  pub project_id : String
  pub session_id : String
  pub stage : String

-- The tables of the store, with the next AUTOINCREMENT id of `events`. The high-water marks of
-- `state_projections` are ids, or the sentinel -1, which `none` stands for.
-- `evidence_ids` are the keys of `raw_evidence`, which foreign keys read.
pub record EventStore (W : Type 0) : Type 0 where
  pub events : List (EventRow W)
  pub next_id : ℕ
  pub provenance : List Provenance
  pub meta : List (String × String)
  pub projections : List (String × Option ℕ)
  pub verdicts : List Firing
  pub evidence_ids : List ℕ
  pub failures : List Failure
