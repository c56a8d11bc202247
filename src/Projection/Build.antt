-- ===== src/Projection/Build.antt =====
-- storage/projections.py: a projection of the live events, with backfill_keys of
-- utils/decision_key.py. The formula of compression/weights.py is an argument, `compute_weight`: it
-- has the record, in which it reads the affected files, the number of the record's session, the
-- status of each path, and the number of sessions.
use cognikernel.Prelude.{
  ℕ, suc, ◌+◌, String, not, ◌&&◌, ◌||◌, Option, none, some, List, [], ◌∷◌, ◌++◌, if◌then◌else◌,
  str_eq, any, select, sort_down, length,
}
use mathlib.Core.List
use cognikernel.Events.Row.{component_status, same_type, Floats, EventRow}
use cognikernel.Prelude.{Unicode}
use cognikernel.Projection.Consolidate.{Rec, consolidate_by_key}
use cognikernel.Projection.Ordering.{
  Section, hard, graveyard, component, choice, thread, unrouted, section_of, same_section,
  is_bare_basename,
}
use cognikernel.Projection.Paths.{canonicalize_path}

-- The rows of a table with a unique text key, each as its key and the other columns.
module _ {A : Type 0} where
  unfoldable pub value_of : String → List (String × A) → Option A
  value_of key [] = none
  value_of key ((k, a) ∷ rows) = if str_eq k key then some a else value_of key rows

  -- INSERT ... ON CONFLICT DO UPDATE, or an assignment to a key of a dict
  unfoldable pub put_value : String → A → List (String × A) → List (String × A)
  put_value key a [] = (key, a) ∷ []
  put_value key a ((k, b) ∷ rows) =
      let rest = put_value key a rows in if str_eq k key then ((k, a) ∷ rows) else ((k, b) ∷ rest)

-- The columns of a projection that hold records. The summary is always empty.
pub record Content (W : Type 0) : Type 0 where
  pub hard_constraints : List (Rec W)
  pub ranked_decisions : List (Rec W)
  pub component_map : List (String × Rec W)
  pub graveyard_recs : List (Rec W)
  pub thread_recs : List (Rec W)

abbrev pub no_content : {W : Type 0} → Content W
no_content = record {
  hard_constraints = [];
  ranked_decisions = [];
  component_map = [];
  graveyard_recs = [];
  thread_recs = [];
}

unfoldable pub status_or_unknown : Option String → String
status_or_unknown none = "unknown"
status_or_unknown (some status) = status

module _ {W : Type 0} where
  unfoldable pub rec_of_row : EventRow W → Rec W
  rec_of_row r = record {
    id = r.id;
    event_type = r.event_type;
    weight = r.weight;
    mention_count = r.mention_count;
    session_id = r.session_id;
    content_hash = r.content_hash;
    payload = r.payload;
    created_at = r.created_at;
    decision_key = r.decision_key;
    provenance_count = none;
    lineage = [];
  }

  -- the numbers of the sessions, by first appearance
  unfoldable pub session_order : List (EventRow W) → List String → List String
  session_order [] seen = seen
  session_order (r ∷ rows) seen =
      session_order rows
        (if any (str_eq r.session_id) seen then seen else seen ++ r.session_id ∷ [])

  -- the status of each path, the last record's for a path of several
  unfoldable pub activity_of : List (Rec W) → List (String × String) → List (String × String)
  unfolding put_value status_or_unknown
  activity_of [] statuses = statuses
  activity_of (r ∷ recs) statuses = activity_of recs (
      if same_type r.event_type component_status && not (str_eq r.payload.path "")
      then put_value r.payload.path (status_or_unknown r.payload.status) statuses
      else statuses)

  -- the records of a projection, bucket by bucket
  unfoldable pub all_recs : Content W → List (Rec W)
  all_recs c =
      c.hard_constraints
      ++ c.ranked_decisions
      ++ c.graveyard_recs
      ++ c.thread_recs
      ++ List.map (λ p. p.1) c.component_map

-- 1 for the first session; 0 for a session that is not there
unfoldable pub number_from : ℕ → String → List String → ℕ
number_from n session [] = 0
number_from n session (s ∷ sessions) =
    if str_eq s session then n else number_from (suc n) session sessions

module _ {W : Type 0} (f : Floats W) where
  -- the record takes the place of the one before it, with its mentions and the larger weight
  unfoldable pub collapse : Rec W → Option (Rec W) → Rec W
  collapse r none = r
  collapse r (some prior) = record r {
    mention_count = prior.mention_count + r.mention_count;
    weight = f.max prior.weight r.weight;
  }

  unfoldable pub add_component : Rec W → Content W → Content W
  unfolding canonicalize_path is_bare_basename value_of put_value collapse
  add_component r c =
      let path = canonicalize_path r.payload.path in
      if str_eq path "" || is_bare_basename path then c else (record c {
        component_map =
            put_value path
              (collapse (record r { payload = record r.payload { path = path } })
                (value_of path c.component_map))
              c.component_map;
      })

  unfoldable pub route : Section → Rec W → Content W → Content W
  unfolding add_component
  route hard r c = record c { hard_constraints = c.hard_constraints ++ r ∷ [] }
  route graveyard r c = record c { graveyard_recs = c.graveyard_recs ++ r ∷ [] }
  route component r c = add_component r c
  route choice r c = record c { ranked_decisions = c.ranked_decisions ++ r ∷ [] }
  route thread r c = record c { thread_recs = c.thread_recs ++ r ∷ [] }
  route unrouted r c = c

  unfoldable pub route_all : List (EventRow W) → Content W → Content W
  unfolding route rec_of_row section_of
  route_all [] c = c
  route_all (r ∷ rows) c = route_all rows (route (section_of r.event_type) (rec_of_row r) c)

  -- the consolidation of the constraints and decisions together
  unfoldable pub consolidate_content : Unicode → Content W → Content W
  unfolding consolidate_by_key section_of same_section
  consolidate_content u c =
      let all = consolidate_by_key f u (c.hard_constraints ++ c.ranked_decisions) in
      let is_hard = λ (r : Rec W). same_section (section_of r.event_type) hard in
      record c {
        hard_constraints = select is_hard all;
        ranked_decisions = select (λ r. not (is_hard r)) all;
      }

  module _ (compute_weight : Rec W → ℕ → List (String × String) → ℕ → W) where
    unfoldable pub weigh : List (EventRow W) → Content W → Content W
    unfolding session_order number_from activity_of all_recs
    weigh events c =
        let sessions = session_order events [] in
        let statuses = activity_of (all_recs c) [] in
        let weighed = λ (r : Rec W). record r {
          weight =
              compute_weight r (number_from 1 r.session_id sessions) statuses (length sessions);
        } in
        record {
          hard_constraints = List.map weighed c.hard_constraints;
          ranked_decisions = List.map weighed c.ranked_decisions;
          component_map = List.map (λ p. (p.0, weighed p.1)) c.component_map;
          graveyard_recs = List.map weighed c.graveyard_recs;
          thread_recs = List.map weighed c.thread_recs;
        }

    unfoldable pub build_projection : Unicode → List (EventRow W) → Content W
    unfolding route_all consolidate_content weigh
    build_projection u events =
        let c = weigh events (consolidate_content u (route_all events no_content)) in
        record c { ranked_decisions = sort_down (λ a b. f.lt a.weight b.weight) c.ranked_decisions }
