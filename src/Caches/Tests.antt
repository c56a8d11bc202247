-- ===== src/Caches/Tests.antt =====
-- storage/grep_cache.py, storage/read_cache.py, storage/denied_reads.py: small tables, and the theorems
-- at them.
use cognikernel.Prelude.{
  starts_with, ℕ, ◌==◌, if◌then◌else◌, ◌≡◌, refl, String, Bool, false, some, List, [], ◌∷◌, ok, any,
  select, first_where, update_where, count_where,
}
use cognikernel.Caches.Grep.{
  GrepEntry, raw_key, is_entry, drop_slashes, is_below, is_listed, cache_key_of, lookup_grep_result,
  stored_entry, fresh_entry, store_grep_result, may_show, is_stale_entry, invalidate_project_cache,
}
use cognikernel.Caches.Covers.{Covers}
use cognikernel.Caches.Stale.{store_grep-lookup}
use cognikernel.Caches.Sessions.{
  ReadCacheEntry, DeniedRead, is_outcome, is_read_of, read_again, first_read, record_read, get_read,
  is_denial_of, denied_again, first_denial, record_denied, get_denied, was_denied_within,
  clear_denied,
}

program : Unit {0}
unfolding any select first_where update_where count_where starts_with raw_key is_entry drop_slashes
    is_below is_listed cache_key_of lookup_grep_result stored_entry fresh_entry store_grep_result
    may_show is_stale_entry invalidate_project_cache is_outcome is_read_of read_again first_read
    record_read get_read is_denial_of denied_again first_denial record_denied get_denied
    was_denied_within clear_denied
program = tt

-- a digest that tells "a" and "b" apart, and a glob that matches nothing
abbrev digest : List ℕ → String
digest [] = ""
digest (c ∷ cs) = if c == 97 then "a" else "b"

abbrev no_match : String → String → Bool
no_match path glob = false

-- the results of "a" below src/ and of "b" below docs
abbrev cache : List GrepEntry
cache =
    record {
      project_id = "p";
      cache_key = "a";
      pattern = "a";
      path_filter = "src/";
      glob_filter = "";
      result_text = "in src";
      cached_at = 1;
      hit_count = 0;
    }
    ∷ record {
      project_id = "p";
      cache_key = "b";
      pattern = "b";
      path_filter = "docs";
      glob_filter = "";
      result_text = "in docs";
      cached_at = 2;
      hit_count = 0;
    }
    ∷ []

drops_src : (invalidate_project_cache digest no_match "p" (some "src/main.py") cache).1 ≡ 1
unfolding program
drops_src = refl

store_grep-lookup_example :
    (lookup_grep_result digest no_match "p" "a" "src/" ""
      (store_grep_result digest no_match "p" "a" "src/" "" "new" 9 cache)).1
    ≡ some "new"
store_grep-lookup_example = store_grep-lookup digest no_match "p" "a" "src/" "" "new" 9 cache

abbrev read_once : List ReadCacheEntry
read_once =
    record {
      project_id = "p";
      session_id = "s";
      file_path = "f";
      first_read_at = 5;
      last_read_at = 5;
      read_count = 1;
      last_read_outcome = "ok";
    }
    ∷ []

abbrev read_twice : List ReadCacheEntry
read_twice =
    record {
      project_id = "p";
      session_id = "s";
      file_path = "f";
      first_read_at = 5;
      last_read_at = 8;
      read_count = 2;
      last_read_outcome = "ok";
    }
    ∷ []

reads_again : record_read "p" "s" "f" "ok" 8 read_once ≡ ok read_twice
unfolding program
reads_again = refl

abbrev denied : List DeniedRead
denied =
    record {
      project_id = "p";
      session_id = "s";
      file_path = "f";
      denied_at = 10;
      reason = "skeleton_fresh";
    }
    ∷ []

denies : record_denied "p" "s" "f" "skeleton_fresh" 10 [] ≡ ok denied
unfolding program
denies = refl
