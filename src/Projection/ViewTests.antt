-- ===== src/Projection/ViewTests.antt =====
-- storage/projections.py and utils/paths.py: a database that is used, and the theorem at it.
use cognikernel.Prelude.{
  ℕ, ◌≡◌, refl, true, false, none, some, List, [], ◌∷◌, String, leb, ◌&&◌, Unicode, any, select,
  sort_down, insert_sorted, count_where, is_space, starts_with, contains, update_where,
  if◌then◌else◌, Option,
}
use mathlib.Core.List
use cognikernel.Events.Row.{decision, component_status, same_type, Event, EventRow}
use cognikernel.Merge.Run.{Stats, execute_merge}
use cognikernel.Merge.Program.{merge_program}
use cognikernel.History.{get_events_for_projection, is_projected, is_live, get_max_event_id, max_id}
use cognikernel.Projection.Consolidate.{
  Rec, key_of, add_to_key, group_by_key, consolidate_by_key, consolidate_group, consolidate_groups,
}
use cognikernel.Projection.Ordering.{section_of, same_section, is_bare_basename}
use cognikernel.Projection.Paths.{
  is_slash, strip_left, drop_slashes, squeeze, has_double, squeeze_all, drop_dots, looks_absolute,
  drop_trailing, climbs, relative_path, canonicalize_path,
}
use cognikernel.Projection.Build.{
  value_of, put_value, rec_of_row, session_order, status_or_unknown, activity_of, all_recs,
  number_from, collapse, add_component, route, route_all, consolidate_content, weigh,
  build_projection,
}
use cognikernel.Projection.Reload.{
  Views, load_projection, is_behind, needs_rebuild, save_projection, invalidate, backfill_keys,
  projection_to_events, rebuild_projection, load_or_rebuild, text_before, saved_form,
}
use cognikernel.Projection.Current.{load, built, unused, loading, merging, load_or_rebuild-current}
use cognikernel.Samples.{world, event, row, store, payload}

program : Unit {0}
unfolding any select sort_down insert_sorted count_where is_space starts_with contains update_where
    same_type get_events_for_projection is_projected is_live get_max_event_id max_id key_of
    add_to_key group_by_key consolidate_by_key consolidate_group consolidate_groups section_of
    same_section is_bare_basename is_slash strip_left drop_slashes squeeze has_double squeeze_all
    drop_dots looks_absolute drop_trailing climbs relative_path canonicalize_path value_of put_value
    rec_of_row session_order status_or_unknown activity_of all_recs number_from collapse
    add_component route route_all consolidate_content weigh build_projection load_projection
    is_behind needs_rebuild save_projection invalidate backfill_keys projection_to_events
    rebuild_projection load_or_rebuild text_before saved_form
program = tt

dotted : canonicalize_path " ./src//app\\main.py/ " ≡ "src/app/main.py"
unfolding program
dotted = refl

outside : canonicalize_path "../main.py" ≡ ""
unfolding program
outside = refl

-- a canonical path whose canonical form is another
spaced : canonicalize_path "src /" ≡ "src "
unfolding program
spaced = refl

unspaced : canonicalize_path "src " ≡ "src"
unfolding program
unspaced = refl

abbrev plain : Unicode
plain = record { lower = λ cs. cs; is_word = λ c. leb 97 c && leb c 122 }

-- later sessions weigh more
abbrev by_session : Rec ℕ → ℕ → List (String × String) → ℕ → ℕ
by_session r number statuses sessions = number

abbrev file : ℕ → String → EventRow ℕ
file id path = row id none (record (event component_status "done" "h") {
  payload = record (payload "done") { path = path };
})

abbrev fresh : Views ℕ
fresh = record {
  store = store (file 1 "src/a.py" ∷ file 2 "./src//a.py" ∷ file 3 "b.py" ∷ []) 4;
  contents = [];
}

-- both spellings of a path are one component, and a bare name is none
components :
    List.map {B = String × ℕ}
      (λ p. (p.0, p.1.mention_count))
      (built world by_session plain "p" fresh.store).component_map
    ≡ ("src/a.py", 2) ∷ []
unfolding program
components = refl

abbrev paths : Views ℕ → Option (List String)
paths v = elim (load_projection "p" v) [
  | none ↦ none
  | some (_, c) ↦ some (List.map {B = String} (λ p. p.0) c.component_map)
]

-- a projection that is loaded has its paths in order, in whichever order they were built
in_order :
    paths
      (load world by_session plain "p" 400
        (record { store = store (file 1 "b/x.py" ∷ file 2 "a/y.py" ∷ []) 3; contents = [] })).0
    ≡ some ("a/y.py" ∷ "b/x.py" ∷ [])
unfolding program
in_order = refl

abbrev newer : Event ℕ
newer = event decision "use tabs" "h3"

abbrev merge_stats : Stats
merge_stats = record {
  n_inserted = 1;
  n_updated = 0;
  n_superseded = 0;
  n_cascaded = 0;
  n_archived = 0;
  n_rejected = 0;
}

abbrev loaded : Views ℕ
loaded = (load world by_session plain "p" 400 fresh).0

merged :
    (execute_merge world false false none 500 "s" (newer ∷ []) loaded.store).1 ≡ some merge_stats
unfolding program merge_program
merged = refl

load_or_rebuild-current_example :
    let used : Views ℕ = record loaded {
      store = (execute_merge world false false none 500 "s" (newer ∷ []) loaded.store).0;
    } in
    let r = load world by_session plain "p" 600 used in
    let content = built world by_session plain "p" r.0.store in
    (built_at : ℕ) × (r.1
      ≡ some (built_at, if needs_rebuild "p" used.store then content else saved_form content))
unfolding value_of
load_or_rebuild-current_example =
    load_or_rebuild-current world by_session plain "p" fresh _ 600 refl
      (merging false false none 500 "s" newer [] merge_stats (loading 400 unused) refl merged)

-- the newest event is not live
abbrev replaced : Views ℕ
replaced = record {
  store =
      store
        (row 1 none (event decision "use tabs" "h1")
          ∷ row 2 (some 1) (event decision "use spaces" "h2")
          ∷ [])
        3;
  contents = [];
}

-- a projection that has just been built is out of date already
never_loaded : needs_rebuild "p" (load world by_session plain "p" 400 replaced).0.store ≡ true
unfolding program
never_loaded = refl
