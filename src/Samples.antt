-- ===== src/Samples.antt =====
-- Concrete data for the tests: a world whose weights are natural numbers, an event, and stores.
use cognikernel.Prelude.{
  ℕ, ◌+◌, ◌*◌, String, false, Option, none, some, List, [], ◌∷◌, ok, ltb, ◌==◌, str_eq,
  if◌then◌else◌,
}
use cognikernel.Events.Row.{EventType, Payload, Floats, Event, EventRow, EventStore}
use cognikernel.Merge.World.{Detectors, World}

abbrev smaller : ℕ → ℕ → ℕ
smaller a b = if ltb a b then a else b

abbrev larger : ℕ → ℕ → ℕ
larger a b = if ltb a b then b else a

abbrev pub floats : Floats ℕ
floats = record {
  add = λ a b. a + b;
  mul = λ a b. a * b;
  min = smaller;
  max = larger;
  lt = ltb;
  eq = λ a b. a == b;
  zero = 0;
  one = 10;
  dedup_increment = 1;
  max_event_weight = 30;
  archive_threshold = 2;
  decay_factor = 0;
  downgrade_factor = 1;
  cascade_weight = 10;
}

-- boilerplate alone is detected
abbrev pub detectors : Detectors
detectors = record {
  boilerplate = λ d. ok (if str_eq d "tool output" then some "D2" else none);
  junk_constraint = λ d t. ok none;
  subject_less = λ d. ok none;
  bare_instruction_thread = λ d t a. ok none;
  anaphoric_thread = λ d t a. ok none;
  step_narration = λ d t r. ok none;
}

abbrev pub world : World ℕ
world = record {
  floats = floats;
  detectors = detectors;
  similarity = record {
    descriptions_overlap = λ a b. str_eq a "use postgres";
    subject_supersedes = λ a b. false;
    jaccard = λ a b. 0;
    echo_jaccard = 5;
    describes_future_session_handoff = λ d. false;
    semantic_match = λ e i. false;
    cross_encoder_match = λ e i. false;
  };
  derive_decision_key = λ p t. "key";
  content_hash = λ kind text. text;
  like = λ pattern text. false;
  lower = λ cs. cs;
}

abbrev pub payload : String → Payload
payload text = record {
  description = text;
  authority = "";
  source_role = "";
  provenance = "";
  path = "";
  status = none;
  reason = none;
  dependencies = none;
  cascaded_from = none;
  grounding = none;
  quality = none;
}

-- an event of evidence 7
abbrev pub event : EventType → String → String → Event ℕ
event type text hash = record {
  project_id = "p";
  session_id = "s";
  event_type = type;
  payload = payload text;
  content_hash = hash;
  evidence_id = some 7;
  weight = 10;
  mention_count = 1;
  created_at = 100;
  decision_key = some "k";
  captured_at_sha = none;
}

abbrev pub row : ℕ → Option ℕ → Event ℕ → EventRow ℕ
row id by e = record {
  id = id;
  event = e;
  superseded_by = by;
  superseded_at = none;
  supersede_reason = none;
  archived = false;
  archived_at = none;
}

abbrev pub store : List (EventRow ℕ) → ℕ → EventStore ℕ
store rows next = record {
  events = rows;
  next_id = next;
  provenance = [];
  meta = [];
  projections = [];
  verdicts = [];
  evidence_ids = 6 ∷ 7 ∷ [];
  failures = [];
}
