-- ===== src/Caches/Grep.antt =====
-- storage/grep_cache.py: results of searches, until a file that they may show changes. The shortened
-- hash of a key and `fnmatch` are parameters.
use cognikernel.Prelude.{
  starts_with, ℕ, ◌+◌, String, Bool, true, not, ◌&&◌, ◌||◌, Option, none, some, List, [], ◌∷◌, ◌++◌,
  ◌==◌, if◌then◌else◌, str_eq, codes, any, select, first_where, update_where, delete_where,
  count_where,
}
use mathlib.Core.List.{reverse}

-- A row of `grep_cache`.
pub record GrepEntry : Type 0 where
  pub project_id : String
  pub cache_key : String
  pub pattern : String
  pub path_filter : String
  pub glob_filter : String
  pub result_text : String
  pub cached_at : ℕ
  pub hit_count : ℕ

-- f"{pattern}\x00{path}\x00{glob}"
unfoldable pub raw_key : String → String → String → List ℕ
raw_key pattern path glob = codes pattern ++ 0 ∷ (codes path ++ 0 ∷ codes glob)

unfoldable pub is_entry : String → String → GrepEntry → Bool
is_entry project key e = str_eq e.project_id project && str_eq e.cache_key key

unfoldable pub drop_slashes : List ℕ → List ℕ
drop_slashes [] = []
drop_slashes (c ∷ cs) = if c == 47 then drop_slashes cs else c ∷ cs

-- changed_path.startswith(path_filter.rstrip("/") + "/")
unfoldable pub is_below : String → String → Bool
unfolding starts_with drop_slashes
is_below changed path =
    starts_with (reverse (drop_slashes (reverse (codes path))) ++ 47 ∷ []) (codes changed)

-- DELETE … WHERE project_id = ? AND cache_key IN (…)
unfoldable pub is_listed : String → List GrepEntry → GrepEntry → Bool
is_listed project listed e =
    str_eq e.project_id project && any (λ d. str_eq e.cache_key d.cache_key) listed

module _ (digest24 : List ℕ → String) (fnmatch : String → String → Bool) where
  unfoldable pub cache_key_of : String → String → String → String
  unfolding raw_key
  cache_key_of pattern path glob = digest24 (raw_key pattern path glob)

  -- the result, and the hit counted
  unfoldable pub lookup_grep_result :
      String → String → String → String → List GrepEntry → List GrepEntry × Option String
  unfolding is_entry cache_key_of
  lookup_grep_result project pattern path glob rows =
      let key = cache_key_of pattern path glob in
      elim (first_where (is_entry project key) rows) [
        | none ↦ (rows, none)
        | some e ↦ (
          update_where (is_entry project key) (λ r. record r { hit_count = r.hit_count + 1 }) rows,
          some e.result_text,
        )
      ]

  unfoldable pub stored_entry : String → ℕ → GrepEntry → GrepEntry
  stored_entry text now e = record e { result_text = text; cached_at = now; hit_count = 0 }

  unfoldable pub fresh_entry : String → String → String → String → String → ℕ → GrepEntry
  unfolding cache_key_of
  fresh_entry project pattern path glob text now = record {
    project_id = project;
    cache_key = cache_key_of pattern path glob;
    pattern = pattern;
    path_filter = path;
    glob_filter = glob;
    result_text = text;
    cached_at = now;
    hit_count = 0;
  }

  -- INSERT … ON CONFLICT(project_id, cache_key) DO UPDATE
  unfoldable pub store_grep_result :
      String → String → String → String → String → ℕ → List GrepEntry → List GrepEntry
  unfolding is_entry cache_key_of stored_entry fresh_entry
  store_grep_result project pattern path glob text now rows =
      let key = cache_key_of pattern path glob in
      if any (is_entry project key) rows
      then update_where (is_entry project key) (stored_entry text now) rows
      else rows ++ fresh_entry project pattern path glob text now ∷ []

  -- whether a search with these filters may show the changed file
  unfoldable pub may_show : String → GrepEntry → Bool
  unfolding is_below
  may_show changed e =
      if str_eq e.path_filter "" && str_eq e.glob_filter ""
      then true
      else if not (str_eq e.path_filter "")
          && (str_eq e.path_filter changed || is_below changed e.path_filter)
      then true
      else not (str_eq e.glob_filter "") && fnmatch changed e.glob_filter

  -- the rows of the project that the changed path makes stale
  unfoldable pub is_stale_entry : String → String → GrepEntry → Bool
  unfolding may_show
  is_stale_entry project changed e = str_eq e.project_id project && may_show changed e

  unfoldable pub invalidate_project_cache :
      String → Option String → List GrepEntry → List GrepEntry × ℕ
  unfolding is_stale_entry is_listed
  invalidate_project_cache project none rows = (
    delete_where (λ e. str_eq e.project_id project) rows,
    count_where (λ e. str_eq e.project_id project) rows,
  )
  invalidate_project_cache project (some changed) rows =
      let listed = select (is_stale_entry project changed) rows in
      (delete_where (is_listed project listed) rows, count_where (is_listed project listed) rows)
