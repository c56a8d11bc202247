-- ===== src/Merge/Cascade.antt =====
-- delta/cascade.py: a blocked or abandoned component puts its direct dependents up for review.
use Prim.Native.String.{◌++◌ as text_append}
use cognikernel.Prelude.{
  ℕ, ◌+◌, String, Bool, true, false, not, ◌&&◌, ◌||◌, Option, none, some, List, [], ◌∷◌, Result, ok,
  err, ◌>>=◌, if◌then◌else◌, str_eq, select, is_some,
}
use cognikernel.Events.Row.{component_status, same_type, Event, EventRow, EventStore}
use cognikernel.Merge.World.{World}
use cognikernel.Merge.Ingest.{insert_or_bump, link_event_provenance}

unfoldable pub is_cascade_status : Option String → Bool
is_cascade_status none = false
is_cascade_status (some s) = str_eq s "blocked" || str_eq s "abandoned"

abbrev pub status_text : Option String → String
status_text none = ""
status_text (some s) = s

unfoldable pub link_cascade : {W : Type 0} → ℕ → ℕ → Option ℕ → EventStore W → Result (EventStore W)
link_cascade id status_id none s = ok s
link_cascade id status_id (some i) s =
    link_event_provenance id i "cognikernel.v2.cascade" (some status_id) s

module _ {W : Type 0} (w : World W) where
  -- dependencies LIKE '%"path"%'
  unfoldable pub depends_on : String → String → EventRow W → Bool
  depends_on project target r =
      str_eq r.project_id project
      && same_type r.event_type component_status
      && not r.archived
      && not (is_some r.superseded_by)
      && (elim r.payload.dependencies [
        | none ↦ false
        | some text ↦ w.like (text_append "%\"" (text_append target "\"%")) text
      ])

  unfoldable pub cascade_event : ℕ → ℕ → Event W → String → Event W
  cascade_event now status_id e dep_path = record {
    project_id = e.project_id;
    session_id = e.session_id;
    event_type = component_status;
    payload = record {
      description = "";
      authority = "";
      source_role = "";
      provenance = "";
      path = dep_path;
      status = some "needs_review";
      reason = some (
          text_append "depends on "
            (text_append e.payload.path (text_append " which is " (status_text e.payload.status))));
      dependencies = none;
      cascaded_from = some status_id;
      grounding = none;
      quality = none;
    };
    content_hash =
        w.content_hash "COMPONENT_STATUS"
          (text_append dep_path (text_append " needs_review cascade from " e.payload.path));
    evidence_id = e.evidence_id;
    weight = w.floats.cascade_weight;
    mention_count = 1;
    created_at = now;
    decision_key = none;
    captured_at_sha = none;
  }

  -- a duplicate of a cascade counts one mention more
  unfoldable pub mentioned_again : EventRow W → EventRow W
  mentioned_again r =
      let e = r.event in record r { event = record e { mention_count = e.mention_count + 1 } }

  -- one round of the loop: the store, or the exception
  unfoldable pub cascade_to : ℕ → ℕ → Event W → EventRow W → EventStore W → Result (EventStore W)
  unfolding cascade_event
  cascade_to now status_id e dep s = do
    let c = cascade_event now status_id e dep.payload.path
    (s', id) ← insert_or_bump mentioned_again c s
    link_cascade id status_id e.evidence_id s'

  unfoldable pub cascade_each :
      ℕ → ℕ → Event W → List (EventRow W) → ℕ → EventStore W → Result (EventStore W × ℕ)
  cascade_each now status_id e [] count s = ok (s, count)
  cascade_each now status_id e (dep ∷ deps) count s =
      elim (str_eq dep.payload.path "" || str_eq dep.payload.path e.payload.path) [
        | true ↦ cascade_each now status_id e deps count s
        | false ↦ elim (cascade_to now status_id e dep s) [
          | ok s' ↦ cascade_each now status_id e deps (count + 1) s'
          | err x ↦ err x
        ]
      ]

  -- `status_id` is the id of the event's row.
  unfoldable pub cascade_component_status :
      ℕ → ℕ → Event W → EventStore W → Result (EventStore W × ℕ)
  unfolding is_cascade_status depends_on
  cascade_component_status now status_id e s =
      if not (is_cascade_status e.payload.status)
      then ok (s, 0)
      else if is_some e.payload.cascaded_from
      then ok (s, 0)
      else if str_eq e.payload.path ""
      then ok (s, 0)
      else cascade_each now status_id e (select (depends_on e.project_id e.payload.path) s.events) 0
          s
