-- ===== src/Merge/Decay.antt =====
-- delta/decay.py, delta/merge.py: the decay of weights, once for each session, and the archive.
use Prim.Native.String.{◌++◌ as text_append}
use cognikernel.Prelude.{
  ℕ, String, Bool, true, false, not, ◌&&◌, Option, none, some, List, [], ◌∷◌, ◌++◌, if◌then◌else◌,
  str_eq, update_where, count_where, first_where, delete_where,
}
use cognikernel.Events.Row.{
  EventType, constraint_hard, approach_abandoned_do_not_retry, Floats, EventRow, EventStore,
}

unfoldable pub meta_key : String → String
meta_key project = text_append "last_decay_session:" project

unfoldable pub has_meta_key : String → String × String → Bool
has_meta_key key (k, _) = str_eq k key

unfoldable pub meta_value : String → List (String × String) → Option String
unfolding has_meta_key
meta_value key rows = elim (first_where (has_meta_key key) rows) [
  | none ↦ none
  | some (_, v) ↦ some v
]

-- INSERT OR REPLACE INTO meta
unfoldable pub set_meta : String → String → List (String × String) → List (String × String)
unfolding has_meta_key
set_meta key value rows = delete_where (has_meta_key key) rows ++ (key, value) ∷ []

unfoldable pub is_protected : EventType → Bool
is_protected constraint_hard = true
is_protected approach_abandoned_do_not_retry = true
is_protected _ = false

-- last_row and last_row["value"] == current_session_id
unfoldable pub already_decayed : String → String → List (String × String) → Bool
unfolding meta_value
already_decayed project session rows = elim (meta_value (meta_key project) rows) [
  | none ↦ false
  | some v ↦ str_eq v session
]

module _ {W : Type 0} (f : Floats W) where
  unfoldable pub is_decaying : String → String → EventRow W → Bool
  is_decaying project session r =
      str_eq r.project_id project && not (str_eq r.session_id session) && not r.archived

  -- MAX(0.0, weight * factor)
  unfoldable pub decayed_row : EventRow W → EventRow W
  decayed_row r =
      let e = r.event in
      record r { event = record e { weight = f.max f.zero (f.mul e.weight f.decay_factor) } }

  unfoldable pub is_stale : String → EventRow W → Bool
  unfolding is_protected
  is_stale project r =
      str_eq r.project_id project
      && not r.archived
      && f.lt r.weight f.archive_threshold
      && not (is_protected r.event_type)

  -- The two passes differ in `archived_at` alone, which `stamp` writes.
  unfoldable pub decay_pass :
      (Option ℕ → Option ℕ) → String → String → EventStore W → EventStore W × ℕ
  unfolding is_decaying decayed_row is_stale
  decay_pass stamp project session s =
      if already_decayed project session s.meta
      then (s, 0)
      else let faded = update_where (is_decaying project session) decayed_row s.events in
        (
          record s {
            events =
                update_where (is_stale project)
                  (λ r. record r { archived = true; archived_at = stamp r.archived_at }) faded;
            meta = set_meta (meta_key project) session s.meta;
          },
          count_where (is_stale project) faded,
        )

  -- delta/decay.py
  unfoldable pub apply_decay_pass : ℕ → String → String → EventStore W → EventStore W × ℕ
  unfolding decay_pass
  apply_decay_pass now = decay_pass (λ _. some now)

  -- delta/merge.py
  unfoldable pub apply_decay_inner : String → String → EventStore W → EventStore W × ℕ
  unfolding decay_pass
  apply_decay_inner = decay_pass (λ at. at)
