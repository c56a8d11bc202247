-- ===== src/Caches/Writes.antt =====
-- storage/write_cache.py, storage/render_ledger.py: the files that a session has written, and the
-- events that it was shown. No statement of the ledger fails here; where one does, it records and
-- returns nothing.
use cognikernel.Prelude.{
  ℕ, ◌+◌, String, Bool, true, false, not, ◌&&◌, ◌||◌, Option, none, some, List, [], ◌∷◌, ◌++◌,
  Result, ok, err, value_error, if◌then◌else◌, str_eq, ◌==◌, any, first_where, update_where, select,
  delete_where, count_where,
}
use mathlib.Core.List

pub record WriteCacheEntry : Type 0 where
  pub project_id : String
  pub session_id : String
  pub file_path : String
  pub first_write_at : ℕ
  pub last_write_at : ℕ
  pub write_count : ℕ
  pub last_write_action : String

unfoldable pub is_write_action : String → Bool
is_write_action a = str_eq a "Write" || str_eq a "Edit" || str_eq a "MultiEdit"

unfoldable pub is_write_of : String → String → String → WriteCacheEntry → Bool
is_write_of project session path e =
    str_eq e.project_id project && str_eq e.session_id session && str_eq e.file_path path

unfoldable pub written_again : String → ℕ → WriteCacheEntry → WriteCacheEntry
written_again action now e = record e {
  last_write_at = now;
  write_count = e.write_count + 1;
  last_write_action = action;
}

unfoldable pub first_write : String → String → String → String → ℕ → WriteCacheEntry
first_write project session path action now = record {
  project_id = project;
  session_id = session;
  file_path = path;
  first_write_at = now;
  last_write_at = now;
  write_count = 1;
  last_write_action = action;
}

-- INSERT … ON CONFLICT (project_id, session_id, file_path) DO UPDATE
unfoldable pub record_write :
    String → String → String → String → ℕ → List WriteCacheEntry → Result (List WriteCacheEntry)
unfolding is_write_action is_write_of written_again first_write
record_write project session path action now rows =
    if not (is_write_action action)
    then err value_error
    else ok (
        if any (is_write_of project session path) rows
        then update_where (is_write_of project session path) (written_again action now) rows
        else rows ++ first_write project session path action now ∷ [])

unfoldable pub get_write : String → String → String → List WriteCacheEntry → Option WriteCacheEntry
unfolding is_write_of
get_write project session path rows = first_where (is_write_of project session path) rows

unfoldable pub was_written_in_session :
    String → String → String → List WriteCacheEntry → Bool × Option String
unfolding get_write
was_written_in_session project session path rows = elim (get_write project session path rows) [
  | none ↦ (false, none)
  | some e ↦ (true, some e.last_write_action)
]

unfoldable pub clear_session : String → String → List WriteCacheEntry → List WriteCacheEntry × ℕ
clear_session project session rows = (
  delete_where (λ e. str_eq e.project_id project && str_eq e.session_id session) rows,
  count_where (λ e. str_eq e.project_id project && str_eq e.session_id session) rows,
)

pub record Rendered : Type 0 where
  pub project_id : String
  pub session_id : String
  pub event_id : ℕ
  pub channel : String
  pub rendered_at : ℕ

-- the channels that the table allows
unfoldable pub is_channel : String → Bool
is_channel c = str_eq c "block" || str_eq c "ck1" || str_eq c "recall" || str_eq c "pretool"

unfoldable pub is_rendering_of : String → String → ℕ → String → Rendered → Bool
is_rendering_of project session id channel r =
    str_eq r.project_id project
    && str_eq r.session_id session
    && r.event_id == id
    && str_eq r.channel channel

-- INSERT OR IGNORE for each id: the rows, and how many were added
unfoldable pub record_each :
    String → String → List ℕ → String → ℕ → List Rendered → List Rendered × ℕ
unfolding is_rendering_of is_channel
record_each project session [] channel now rows = (rows, 0)
record_each project session (id ∷ ids) channel now rows =
    let fresh = is_channel channel && not (any (is_rendering_of project session id channel) rows) in
    let added : Rendered = record {
      project_id = project;
      session_id = session;
      event_id = id;
      channel = channel;
      rendered_at = now;
    } in
    let (rows', n) =
      record_each project session ids channel now (if fresh then (rows ++ added ∷ []) else rows) in
    (rows', (if fresh then 1 else 0) + n)

-- the ids that are there
unfoldable pub present : List (Option ℕ) → List ℕ
present [] = []
present (none ∷ ids) = present ids
present (some id ∷ ids) = id ∷ present ids

unfoldable pub record_rendered :
    String → String → List (Option ℕ) → String → ℕ → List Rendered → List Rendered × ℕ
unfolding record_each present
record_rendered project session event_ids channel now rows =
    if str_eq session ""
    then (rows, 0)
    else record_each project session (present event_ids) channel now rows

unfoldable pub rendered_event_ids : String → String → List Rendered → List ℕ
rendered_event_ids project session rows =
    if str_eq session ""
    then []
    else (List.map (λ r. r.event_id)
        (select (λ r. str_eq r.project_id project && str_eq r.session_id session) rows))
