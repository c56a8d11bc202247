-- ===== src/Lib.antt =====
-- A model of the storage and merge core of cognikernel, a memory for coding agents that keeps its
-- events, their evidence and its work queue in SQLite. Paths are below src/cognikernel.
--
-- The parts and how they interact. A hook captures a transcript (integration/session.py): the new
-- lines since the session's cursor become a chunk of evidence (storage/cursors.py,
-- storage/evidence.py), and a job for it enters the queue (storage/jobs.py). A worker claims the
-- job, extracts candidate events from the chunk and merges them into the event log
-- (delta/merge.py). The merge asks the quality gate (quality/gate.py), inserts each event or bumps
-- the one it restates, links events to evidence, lets new events supersede old ones
-- (delta/supersede.py, storage/events.py), puts dependents of a blocked component up for review
-- (delta/cascade.py), and lets old weights decay (delta/decay.py). Then the cursor moves. What a
-- prompt gets of the log comes from a stored projection of the live events
-- (storage/projections.py), is cut to a token budget (compression/greedy.py) and put into sections
-- (injection/ordering.py).
--
-- Which file models which part.
--   Prelude: results, exceptions and tests on numbers (Tests), SQL tables as lists (Tables, Keys,
--     Finding), sorted lists and slices (Sequences), Python's str over code points (PyText)
--     and of numbers (Decimals).
--   Jobs: storage/jobs.py. Row (ExtractionJob, the CHECK constraints), Queue (enqueue_extraction,
--     claim_next_job, ack_stage, fail_job, get_job), Recovery (reclaim_stale_jobs,
--     recover_orphaned_jobs, recover_stuck_running_jobs, replay_dead_letter), Calls (a history of
--     calls). A claim is its SELECT and then claim_finish, so that another process can come
--     between the two. Listing is list_jobs. Changes, Validity, Lifecycle, Claims,
--     Enqueue and Orphans hold the proofs.
--   Events: Row (the tables), Links (set_superseded_by, apply_supersession, mark_superseded,
--     mark_archived, get_event_by_id); Chains and Acyclic hold the proofs.
--   Merge: World (what is a parameter), Gate (admit, apply_verdict), Ingest (insert_event,
--     _insert_or_update, _find_echo, _bump_event, link_event_provenance), Decay (apply_decay_pass,
--     _apply_decay_inner), Cascade (cascade_component_status), Supersede (find_superseded,
--     _cross_type_dedup), Run (execute_merge, record_verdict). The merge runs on a pair of stores:
--     what its connection sees, and what is durable. Archive, Gates, Admission, Commit,
--     Untouched, Linked, Stored, Between and Replay hold the proofs.
--   Evidence: Lines (splitlines and join), Cursors (IngestCursor, save_cursor, compute_anchor,
--     slice_storage_delta, slice_jsonl_for_extraction), Chain (store_evidence,
--     load_full_transcript, the capture of session_capture); Splitting, Reload, Marks, Storing,
--     RoundTrip, Overlap, Dedup, Advance and Fuel hold the proofs.
--   Compression: compression/greedy.py. Greedy (greedy_fill, _compress_mandatory); Sorted, Chosen and
--     Budget hold the proofs.
--   Caches: Grep (storage/grep_cache.py), Sessions (storage/read_cache.py, storage/denied_reads.py),
--     Writes (storage/write_cache.py, storage/render_ledger.py), Skeletons (storage/symbol_files.py);
--     Covers, Stale, Windows and Shown hold the proofs.
--   Overlap: the text similarities of delta/supersede.py (normalize_for_overlap, jaccard_similarity,
--     levenshtein_normalized, descriptions_overlap), with STOPWORDS of utils/subject.py; Edits (edit
--     scripts and the recursive distance), Rows, Words and Prefilter hold the proofs; Detect is
--     subject_supersedes, supersedes, events_overlap and detect_supersession.
--   Worker: process_jobs of integration/session.py, a worker over the queue, the evidence, the events
--     and the cursors; Blocks, Measure, Body, Outcome, Others, Drain and Retry hold the proofs.
--     Lock is _acquire_worker_lock, with the touches and the removal of its file.
--   History: claims_as_of of storage/provenance.py, with the listings and update_weight of
--     storage/events.py; Chain (supersession_chain); Later, Course, Snapshot,
--     Walk and Connected hold the proofs.
--   Projection: Consolidate (storage/consolidate.py), Ordering (injection/ordering.py, with
--     storage/sections.py, normalize_subject of extraction/authority.py and is_bare_basename of
--     utils/paths.py), Paths (canonicalize_path of utils/paths.py), Build and Reload
--     (storage/projections.py, with backfill_keys of utils/decision_key.py); Mentions, Pick,
--     Sections and Current hold the proofs.
--   Samples, the Tests modules, ViewTests and LedgerTests: concrete data, and each theorem at it.
--
-- Representation. A table is the list of its rows in insertion order, with the next AUTOINCREMENT
-- id, which an INSERT OR IGNORE that is ignored uses up; unique keys, foreign keys and CHECK
-- constraints are tested where the code's statement would fail. A call that raises returns an
-- error; times are arguments. Numbers are unbounded, as Python's are; SQLite's 64 bits are not
-- reached by counters and milliseconds. Weights are a type with the operations that the hardware
-- has of them, of which no law is assumed, except where a theorem says so. A payload has the keys
-- that the code reads or writes. A quotient of two lengths is a fraction, compared by
-- cross-multiplication, as the rounded quotients compare below 2^50. A projection that is saved
-- keeps its columns, as JSON does: the lists in their order, the mapping of the components in the
-- order of its paths. Evidence is held as text, whose code points UTF-8 encodes.
--
-- Bounds and fuel. The walk of set_superseded_by has the 10,000 rounds that the code gives it.
-- load_full_transcript walks one round more than there are rows; out of rounds it returns an error
-- of its own, out_of_rounds, which the code does not have and which a theorem rules out: an id
-- would come twice before, for which the code raises ValueError. The walk of supersession_chain has
-- two rounds and, for each row, two and one more for each row that it replaced. The loop over
-- doubled slashes has as many rounds as the path has characters; each shortens it. Every other loop
-- is over the rows of a query or the items of a list.
--
-- Parameters. The detectors of quality/detectors.py (which may raise), the text similarities of
-- delta/supersede.py, the embedding and cross-encoder models, the content hash, decision keys and
-- SQLite's LIKE are the record World of the merge; str.lower and the word characters of Unicode are
-- the record Unicode, and derive_subject of utils/subject.py is an argument of Overlap, as the test
-- for a session handoff (quality/detectors.py) and the weight formula (compression/weights.py) are
-- of Projection; extraction, the grounding context, the clock, locked databases and the operating
-- system are the record Setting of the worker; zlib and SHA-256 are the record Codec, of which the
-- one law assumed is that decompression undoes compression. The token estimate, the limits that the
-- code scales by a float, the shortened digest of the grep cache and fnmatch are arguments.
--
-- Not modelled: the command line, hooks, the MCP server, extraction, symbol graphs, rendering,
-- telemetry and migrations. They read or print, call models and parsers, or wrap the modelled core.
pub mod Prelude
pub mod Samples
pub mod Jobs
pub mod Events
pub mod Merge
pub mod Overlap
pub mod Evidence
pub mod Compression
pub mod Caches
pub mod Worker
pub mod History
pub mod Projection
