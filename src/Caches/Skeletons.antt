-- ===== src/Caches/Skeletons.antt =====
-- storage/symbol_files.py: whether the stored skeleton of a file is current.
use cognikernel.Prelude.{
  ℕ, String, Bool, not, ◌&&◌, ◌||◌, Option, none, some, List, [], ◌∷◌, ◌++◌, Result, ok, err,
  value_error, ltb, if◌then◌else◌, str_eq, any, first_where, update_where, select, count_where,
  sort_down,
}

pub record SymbolFile : Type 0 where
  pub project_id : String
  pub path : String
  pub freshness : String
  pub refreshed_at : ℕ
  pub refreshed_in_session : String
  pub last_action : String
  pub content_sha256 : String
  pub scan_status : String
  pub symbol_count : ℕ
  pub last_error : String

pub record CoverageStats : Type 0 where
  pub scanned : ℕ
  pub with_symbols : ℕ
  pub parse_errors : ℕ
  pub ignored : ℕ
  pub pending : ℕ

pub record RefreshInfo : Type 0 where
  pub path : String
  pub refreshed_in_session : String
  pub last_action : String
  pub refreshed_at : ℕ

unfoldable pub is_freshness : String → Bool
is_freshness s = str_eq s "fresh" || str_eq s "stale"

unfoldable pub is_scan_status : String → Bool
is_scan_status s =
    str_eq s "scanned" || str_eq s "parse_error" || str_eq s "ignored" || str_eq s "pending"

unfoldable pub is_refresh_action : String → Bool
is_refresh_action s =
    str_eq s "Write" || str_eq s "Edit" || str_eq s "MultiEdit" || str_eq s "scan" || str_eq s ""

unfoldable pub is_file : String → String → SymbolFile → Bool
is_file project path r = str_eq r.project_id project && str_eq r.path path

-- the checks before the statement
unfoldable pub is_refused : SymbolFile → Bool
unfolding is_freshness is_scan_status is_refresh_action
is_refused r =
    not (is_freshness r.freshness)
    || not (is_scan_status r.scan_status)
    || not (is_refresh_action r.last_action)
    || (str_eq r.scan_status "parse_error" && str_eq r.last_error "")

-- INSERT … ON CONFLICT (project_id, path) DO UPDATE: every other column is written
unfoldable pub upsert : SymbolFile → List SymbolFile → Result (List SymbolFile)
unfolding is_refused is_file
upsert file rows =
    if is_refused file
    then err value_error
    else ok (
        if any (is_file file.project_id file.path) rows
        then update_where (is_file file.project_id file.path)
            (λ r. record file { project_id = r.project_id; path = r.path }) rows
        else rows ++ file ∷ [])

unfoldable pub get : String → String → List SymbolFile → Option SymbolFile
unfolding is_file
get project path rows = first_where (is_file project path) rows

unfoldable pub is_fresh : String → String → SymbolFile → Bool
unfolding is_file
is_fresh project path r = is_file project path r && str_eq r.freshness "fresh"

unfoldable pub mark_stale : String → String → List SymbolFile → List SymbolFile × Bool
unfolding is_fresh
mark_stale project path rows = (
  update_where (is_fresh project path) (λ r. record r { freshness = "stale" }) rows,
  ltb 0 (count_where (is_fresh project path) rows),
)

unfoldable pub coverage_stats : String → List SymbolFile → CoverageStats
coverage_stats project rows =
    let own = select (λ r. str_eq r.project_id project) rows in
    record {
      scanned = count_where (λ r. str_eq r.scan_status "scanned") own;
      with_symbols = count_where (λ r. str_eq r.scan_status "scanned" && ltb 0 r.symbol_count) own;
      parse_errors = count_where (λ r. str_eq r.scan_status "parse_error") own;
      ignored = count_where (λ r. str_eq r.scan_status "ignored") own;
      pending = count_where (λ r. str_eq r.scan_status "pending") own;
    }

unfoldable pub is_refreshed : String → SymbolFile → Bool
is_refreshed project r = str_eq r.project_id project && ltb 0 r.refreshed_at

-- ORDER BY refreshed_at DESC LIMIT 1; of files refreshed at one time, the first row
unfoldable pub most_recent_refresh : String → List SymbolFile → Option RefreshInfo
unfolding is_refreshed
most_recent_refresh project rows =
    elim (sort_down (λ (a b : SymbolFile). ltb a.refreshed_at b.refreshed_at)
      (select (is_refreshed project) rows)) [
        | [] ↦ none
        | r ∷ rest ↦ some (record {
          path = r.path;
          refreshed_in_session = r.refreshed_in_session;
          last_action = r.last_action;
          refreshed_at = r.refreshed_at;
        })
      ]
