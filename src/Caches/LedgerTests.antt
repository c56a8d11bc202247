-- ===== src/Caches/LedgerTests.antt =====
-- storage/write_cache.py, storage/render_ledger.py, storage/symbol_files.py: small tables, and the
-- theorem at one.
use cognikernel.Prelude.{
  ◌≡◌, refl, true, false, none, some, [], ◌∷◌, ok, err, value_error, any, select, first_where,
  update_where, count_where, sort_down, insert_sorted,
}
use cognikernel.Caches.Writes.{
  is_write_action, is_write_of, written_again, first_write, record_write, get_write,
  was_written_in_session, is_channel, is_rendering_of, record_each, present, record_rendered,
  rendered_event_ids,
}
use cognikernel.Caches.Skeletons.{
  SymbolFile, is_freshness, is_scan_status, is_refresh_action, is_file, is_refused, upsert, get,
  is_fresh, mark_stale, coverage_stats, is_refreshed, most_recent_refresh,
}
use cognikernel.Caches.Shown.{record_rendered-again}

program : Unit {0}
unfolding any select first_where update_where count_where sort_down insert_sorted is_write_action
    is_write_of written_again first_write record_write get_write was_written_in_session is_channel
    is_rendering_of record_each present record_rendered rendered_event_ids is_freshness
    is_scan_status is_refresh_action is_file is_refused upsert get is_fresh mark_stale
    coverage_stats is_refreshed most_recent_refresh
program = tt

refused : record_write "p" "s" "f" "Read" 7 [] ≡ err value_error
unfolding program
refused = refl

written :
    record_write "p" "s" "f" "Edit" 9 (first_write "p" "s" "f" "Write" 7 ∷ [])
    ≡ ok (written_again "Edit" 9 (first_write "p" "s" "f" "Write" 7) ∷ [])
unfolding program
written = refl

shown :
    rendered_event_ids "p" "s"
      (record_rendered "p" "s" (some 4 ∷ none ∷ some 5 ∷ some 4 ∷ []) "ck1" 7 []).0
    ≡ 4 ∷ 5 ∷ []
unfolding program
shown = refl

record_rendered-again_example :
    let recorded = (record_rendered "p" "s" (some 4 ∷ none ∷ some 5 ∷ []) "ck1" 7 []).0 in
    record_rendered "p" "s" (some 4 ∷ none ∷ some 5 ∷ []) "ck1" 8 recorded ≡ (recorded, 0)
unfolding is_channel
record_rendered-again_example =
    record_rendered-again "p" "s" "ck1" (some 4 ∷ none ∷ some 5 ∷ []) 7 8 [] refl

abbrev scanned_file : SymbolFile
scanned_file = record {
  project_id = "p";
  path = "src/a.py";
  freshness = "fresh";
  refreshed_at = 3;
  refreshed_in_session = "s";
  last_action = "scan";
  content_sha256 = "a";
  scan_status = "scanned";
  symbol_count = 2;
  last_error = "";
}

abbrev stale_file : SymbolFile
stale_file = record scanned_file { freshness = "stale" }

goes_stale : mark_stale "p" "src/a.py" (scanned_file ∷ []) ≡ (stale_file ∷ [], true)
unfolding program
goes_stale = refl

stays_stale : mark_stale "p" "src/a.py" (stale_file ∷ []) ≡ (stale_file ∷ [], false)
unfolding program
stays_stale = refl

no_error_given : upsert (record scanned_file { scan_status = "parse_error" }) [] ≡ err value_error
unfolding program
no_error_given = refl

refreshes : upsert scanned_file (stale_file ∷ []) ≡ ok (scanned_file ∷ [])
unfolding program
refreshes = refl
