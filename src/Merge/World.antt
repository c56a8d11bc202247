-- ===== src/Merge/World.antt =====
-- What the merge calls and this development does not model, as one record of functions: the
-- detectors of quality/detectors.py, the text similarities of delta/supersede.py, the embedding
-- and cross-encoder models, the hash of utils/hashing.py, decision keys, and SQLite's LIKE.
use cognikernel.Prelude.{ℕ, String, Bool, Option, List, Result}
use cognikernel.Events.Row.{EventType, Payload, Floats, Event}

-- A detector returns the rule that it found broken, or raises.
pub record Detectors : Type 0 where
  pub boilerplate : String → Result (Option String)
  pub junk_constraint : String → EventType → Result (Option String)
  pub subject_less : String → Result (Option String)
  pub bare_instruction_thread : String → EventType → String → Result (Option String)
  pub anaphoric_thread : String → EventType → String → Result (Option String)
  pub step_narration : String → EventType → String → Result (Option String)

pub record Similarity (W : Type 0) : Type 0 where
  pub descriptions_overlap : String → String → Bool
  pub subject_supersedes : String → String → Bool
  pub jaccard : String → String → W
  pub echo_jaccard : W
  pub describes_future_session_handoff : String → Bool
  -- the ids that the semantic and the cross-encoder axis match for an event
  pub semantic_match : Event W → ℕ → Bool
  pub cross_encoder_match : Event W → ℕ → Bool

pub record World (W : Type 0) : Type 0 where
  pub floats : Floats W
  pub detectors : Detectors
  pub similarity : Similarity W
  pub derive_decision_key : Payload → EventType → String
  pub content_hash : String → String → String
  pub like : String → String → Bool
  pub lower : List ℕ → List ℕ
