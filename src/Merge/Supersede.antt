-- ===== src/Merge/Supersede.antt =====
-- delta/supersede.py, delta/merge.py: which older events a new one replaces. Rows are read in the
-- order of the table.
use cognikernel.Prelude.{
  ℕ, ◌+◌, String, Bool, true, false, not, ◌&&◌, ◌||◌, Option, none, some, List, [], ◌∷◌, ◌++◌, ltb,
  ◌==◌, if◌then◌else◌, str_eq, select, is_some,
}
use cognikernel.Events.Row.{
  EventType, decision, constraint_hard, constraint_soft, approach_abandoned,
  approach_abandoned_do_not_retry, thread_open, same_type, Event, EventRow, EventStore,
}
use cognikernel.Events.Links.{set_superseded_by, apply_supersession}
use cognikernel.Merge.World.{World}

unfoldable pub is_supersession_type : EventType → Bool
is_supersession_type constraint_hard = true
is_supersession_type constraint_soft = true
is_supersession_type decision = true
is_supersession_type approach_abandoned = true
is_supersession_type approach_abandoned_do_not_retry = true
is_supersession_type thread_open = true
is_supersession_type _ = false

unfoldable pub is_choice_family : EventType → Bool
is_choice_family constraint_hard = true
is_choice_family constraint_soft = true
is_choice_family decision = true
is_choice_family _ = false

unfoldable pub is_thread_scoped : EventType → Bool
is_thread_scoped thread_open = true
is_thread_scoped _ = false

-- _AUTHORITY_PRECEDENCE, with its default
unfoldable pub authority_precedence : String → ℕ
authority_precedence a =
    if str_eq a "user_stated"
    then 3
    else if str_eq a "assistant_answer_to_user_question"
    then 1
    else if str_eq a "inferred_from_code"
    then 0
    else 2

-- new_evidence is not None and row["evidence_id"] == new_evidence
unfoldable pub same_evidence : Option ℕ → Option ℕ → Bool
same_evidence none b = false
same_evidence (some a) none = false
same_evidence (some a) (some b) = b == a

module _ {W : Type 0} (w : World W) (use_embeddings use_cross_encoder : Bool) where
  unfoldable pub is_candidate : Event W → EventRow W → Bool
  is_candidate e r =
      str_eq r.project_id e.project_id
      && (same_type r.event_type e.event_type
          || (is_choice_family e.event_type && is_choice_family r.event_type))
      && not r.archived
      && not (is_some r.superseded_by)
      && not (str_eq r.content_hash e.content_hash)

  -- the gates that every candidate passes: transcript or session, time, authority
  unfoldable pub passes_gates : Event W → EventRow W → Bool
  passes_gates e r =
      let thread = is_thread_scoped e.event_type in
      (if thread
        then str_eq r.session_id e.session_id
        else not (same_evidence e.evidence_id r.evidence_id))
      && not (ltb e.created_at r.created_at)
      && not (
          ltb (authority_precedence e.payload.authority) (authority_precedence r.payload.authority))

  unfoldable pub topical_reason : Event W → EventRow W → Option String
  topical_reason e r =
      let new_desc = e.payload.description in
      let cand_desc = r.payload.description in
      if use_cross_encoder && w.similarity.cross_encoder_match e r.id
      then some "cross_encoder"
      else if use_embeddings && w.similarity.semantic_match e r.id
      then some "semantic"
      else if w.similarity.descriptions_overlap new_desc cand_desc
      then some "lexical"
      else if w.similarity.subject_supersedes new_desc cand_desc
      then some "subject_key"
      else none

  unfoldable pub thread_reason : Event W → EventRow W → Option String
  thread_reason e r =
      if w.similarity.describes_future_session_handoff r.payload.description
        && not (w.similarity.describes_future_session_handoff e.payload.description)
      then none
      else some "thread_recency"

  unfoldable pub cross_type_reason : Event W → EventRow W → Option String
  cross_type_reason e r =
      if w.similarity.subject_supersedes e.payload.description r.payload.description
      then some "subject_key"
      else none

  -- why `e` supersedes the row, if it does
  unfoldable pub supersede_reason : Event W → EventRow W → Option String
  supersede_reason e r =
      if not (passes_gates e r)
      then none
      else if is_thread_scoped e.event_type
      then thread_reason e r
      else if same_type r.event_type e.event_type
      then topical_reason e r
      else cross_type_reason e r

  unfoldable pub match_rows : Event W → List (EventRow W) → List (ℕ × String)
  match_rows e [] = []
  match_rows e (r ∷ rows) =
      let rest = match_rows e rows in
      elim (supersede_reason e r) [ none ↦ rest | some reason ↦ (r.id, reason) ∷ rest ]

  -- with_reasons=True
  unfoldable pub find_superseded : Event W → EventStore W → List (ℕ × String)
  unfolding match_rows is_supersession_type is_candidate
  find_superseded e s =
      if is_supersession_type e.event_type
      then match_rows e (select (is_candidate e) s.events)
      else []

-- by_reason.setdefault(reason, []).append(id), in the order of the first ids
unfoldable pub add_to_group : ℕ → String → List (String × List ℕ) → List (String × List ℕ)
add_to_group id reason [] = (reason, id ∷ []) ∷ []
add_to_group id reason ((k, ids) ∷ groups) =
    if str_eq k reason
    then (k, ids ++ id ∷ []) ∷ groups
    else (k, ids) ∷ add_to_group id reason groups

unfoldable pub group_by_reason : List (ℕ × String) → List (String × List ℕ) → List (String × List ℕ)
unfolding add_to_group
group_by_reason [] groups = groups
group_by_reason ((id, reason) ∷ rest) groups = group_by_reason rest (add_to_group id reason groups)

unfoldable pub dedup_priority : EventType → Option ℕ
dedup_priority approach_abandoned_do_not_retry = some 1
dedup_priority constraint_hard = some 2
dedup_priority approach_abandoned = some 3
dedup_priority _ = none

-- `if set_superseded_by(…): superseded += 1`
abbrev counted {ℓ} : {A : Type ℓ} → A × Bool → A × ℕ
counted (s, written) = (s, if written then 1 else 0)

module _ {W : Type 0} (w : World W) (now : ℕ) where
  unfoldable pub apply_groups : ℕ → List (String × List ℕ) → ℕ → EventStore W → EventStore W × ℕ
  apply_groups new_id [] count s = (s, count)
  apply_groups new_id ((reason, ids) ∷ groups) count s =
      let (s', n) = apply_supersession new_id now (some reason) ids s in
      apply_groups new_id groups (count + n) s'

  -- `supersedes` of delta/supersede.py
  unfoldable pub supersedes : String → String → Bool
  supersedes a b = w.similarity.descriptions_overlap a b || w.similarity.subject_supersedes a b

  -- the peers of another type in the dedup group
  unfoldable pub is_peer : Event W → EventRow W → Bool
  unfolding dedup_priority
  is_peer e r =
      str_eq r.project_id e.project_id
      && is_some (dedup_priority r.event_type)
      && not (same_type r.event_type e.event_type)
      && not r.archived
      && not (is_some r.superseded_by)

  abbrev priority_or_zero : Option ℕ → ℕ
  priority_or_zero none = 0
  priority_or_zero (some p) = p

  -- one round of the loop of `_cross_type_dedup`
  unfoldable pub dedup_peer : ℕ → ℕ → Event W → EventRow W → EventStore W → EventStore W × ℕ
  unfolding dedup_priority
  dedup_peer new_id priority e r s =
      if not (supersedes e.payload.description r.payload.description)
      then (s, 0)
      else if ltb priority (priority_or_zero (dedup_priority r.event_type))
      then counted (set_superseded_by r.id new_id now (some "cross_type_priority") s)
      else ((set_superseded_by new_id r.id now (some "cross_type_priority") s).0, 0)

  unfoldable pub dedup_peers :
      ℕ → ℕ → Event W → List (EventRow W) → ℕ → EventStore W → EventStore W × ℕ
  dedup_peers new_id priority e [] count s = (s, count)
  dedup_peers new_id priority e (r ∷ rows) count s =
      let (s', n) = dedup_peer new_id priority e r s in
      dedup_peers new_id priority e rows (count + n) s'

  unfoldable pub cross_type_dedup : ℕ → Event W → EventStore W → EventStore W × ℕ
  unfolding is_peer dedup_priority
  cross_type_dedup new_id e s = elim (dedup_priority e.event_type) [
    | none ↦ (s, 0)
    | some priority ↦ dedup_peers new_id priority e (select (is_peer e) s.events) 0 s
  ]
