-- ===== src/Caches/Sessions.antt =====
-- storage/read_cache.py, storage/denied_reads.py: the files that a session has read, and the reads that
-- were denied to it.
use cognikernel.Prelude.{
  ℕ, ◌+◌, ◌-◌, String, Bool, true, false, not, ◌&&◌, ◌||◌, Option, none, some, List, [], ◌∷◌, ◌++◌,
  Result, ok, err, value_error, leb, ltb, if◌then◌else◌, str_eq, any, first_where, update_where,
  delete_where, count_where,
}

pub record ReadCacheEntry : Type 0 where
  pub project_id : String
  pub session_id : String
  pub file_path : String
  pub first_read_at : ℕ
  pub last_read_at : ℕ
  pub read_count : ℕ
  pub last_read_outcome : String

pub record DeniedRead : Type 0 where
  pub project_id : String
  pub session_id : String
  pub file_path : String
  pub denied_at : ℕ
  pub reason : String

unfoldable pub is_outcome : String → Bool
is_outcome o = str_eq o "ok" || str_eq o "body_needed_retry"

unfoldable pub is_read_of : String → String → String → ReadCacheEntry → Bool
is_read_of project session path e =
    str_eq e.project_id project && str_eq e.session_id session && str_eq e.file_path path

unfoldable pub read_again : String → ℕ → ReadCacheEntry → ReadCacheEntry
read_again outcome now e = record e {
  last_read_at = now;
  read_count = e.read_count + 1;
  last_read_outcome = outcome;
}

unfoldable pub first_read : String → String → String → String → ℕ → ReadCacheEntry
first_read project session path outcome now = record {
  project_id = project;
  session_id = session;
  file_path = path;
  first_read_at = now;
  last_read_at = now;
  read_count = 1;
  last_read_outcome = outcome;
}

-- INSERT … ON CONFLICT(project_id, session_id, file_path) DO UPDATE
unfoldable pub record_read :
    String → String → String → String → ℕ → List ReadCacheEntry → Result (List ReadCacheEntry)
unfolding is_outcome is_read_of read_again first_read
record_read project session path outcome now rows =
    if not (is_outcome outcome)
    then err value_error
    else ok (
        if any (is_read_of project session path) rows
        then update_where (is_read_of project session path) (read_again outcome now) rows
        else rows ++ first_read project session path outcome now ∷ [])

unfoldable pub get_read : String → String → String → List ReadCacheEntry → Option ReadCacheEntry
unfolding is_read_of
get_read project session path rows = first_where (is_read_of project session path) rows

unfoldable pub was_read_in_session :
    String → String → String → List ReadCacheEntry → Bool × Option String
unfolding get_read
was_read_in_session project session path rows = elim (get_read project session path rows) [
  | none ↦ (false, none)
  | some e ↦ (true, some e.last_read_outcome)
]

-- DELETE … WHERE first_read_at < now - ttl
unfoldable pub cleanup_old_reads : ℕ → ℕ → List ReadCacheEntry → List ReadCacheEntry × ℕ
cleanup_old_reads ttl now rows = (
  delete_where (λ e. ltb (e.first_read_at + ttl) now) rows,
  count_where (λ e. ltb (e.first_read_at + ttl) now) rows,
)

unfoldable pub clear_session_reads : String → String → List ReadCacheEntry → List ReadCacheEntry × ℕ
clear_session_reads project session rows = (
  delete_where (λ e. str_eq e.project_id project && str_eq e.session_id session) rows,
  count_where (λ e. str_eq e.project_id project && str_eq e.session_id session) rows,
)

unfoldable pub is_denial_of : String → String → String → DeniedRead → Bool
is_denial_of project session path d =
    str_eq d.project_id project && str_eq d.session_id session && str_eq d.file_path path

unfoldable pub denied_again : String → ℕ → DeniedRead → DeniedRead
denied_again reason now d = record d { denied_at = now; reason = reason }

unfoldable pub first_denial : String → String → String → String → ℕ → DeniedRead
first_denial project session path reason now = record {
  project_id = project;
  session_id = session;
  file_path = path;
  denied_at = now;
  reason = reason;
}

unfoldable pub record_denied :
    String → String → String → String → ℕ → List DeniedRead → Result (List DeniedRead)
unfolding is_denial_of denied_again first_denial
record_denied project session path reason now rows =
    if not (str_eq reason "skeleton_fresh")
    then err value_error
    else ok (
        if any (is_denial_of project session path) rows
        then update_where (is_denial_of project session path) (denied_again reason now) rows
        else rows ++ first_denial project session path reason now ∷ [])

unfoldable pub get_denied : String → String → String → List DeniedRead → Option DeniedRead
unfolding is_denial_of
get_denied project session path rows = first_where (is_denial_of project session path) rows

-- (now - row["denied_at"]) <= window_ms; a clock that went back gives a negative difference
unfoldable pub was_denied_within : String → String → String → ℕ → ℕ → List DeniedRead → Bool
unfolding get_denied
was_denied_within project session path window now rows =
    elim (get_denied project session path rows) [
      | none ↦ false
      | some d ↦ leb (now - d.denied_at) window
    ]

unfoldable pub clear_denied : String → String → String → List DeniedRead → List DeniedRead × Bool
unfolding is_denial_of
clear_denied project session path rows = (
  delete_where (is_denial_of project session path) rows,
  ltb 0 (count_where (is_denial_of project session path) rows),
)

unfoldable pub cleanup_old_denied : ℕ → ℕ → List DeniedRead → List DeniedRead × ℕ
cleanup_old_denied ttl now rows = (
  delete_where (λ d. ltb (d.denied_at + ttl) now) rows,
  count_where (λ d. ltb (d.denied_at + ttl) now) rows,
)
