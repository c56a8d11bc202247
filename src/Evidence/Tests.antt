-- ===== src/Evidence/Tests.antt =====
-- storage/cursors.py, storage/evidence.py: a transcript that grows by a line, and the theorems at it.
use cognikernel.Prelude.{
  drop, take, ◌+◌, length, ℕ, ◌≡◌, ◌≢◌, refl, String, true, false, none, some, List, [], ◌∷◌, ◌++◌,
  ok, arith, ◌≤◌, ◌==◌, if◌then◌else◌, any, first_where, find_key, update_where, select, strip,
  is_space, err, out_of_rounds, value_error,
}
use cognikernel.Evidence.Lines.{is_break, extend, split_lines, has_text, lines_of, join_lines}
use cognikernel.Evidence.Cursors.{
  IngestCursor, overlap_lines, anchor_lines, compute_anchor, is_continued, slice_storage_delta,
  slice_jsonl_for_extraction, is_cursor_of, get_cursor, moved_cursor, save_cursor, advance_cursor,
}
use cognikernel.Evidence.Chain.{
  Codec, Evidence, Archive, ends_line, add_chunk, join_chunks, find_evidence, same_digest, burn_id,
  insert_evidence, evidence_row, store_evidence, walk_chain, collect_chunks, load_full_transcript,
  is_source_type, captured_content, capture,
}
use cognikernel.Evidence.Marks.{Marks}
use cognikernel.Evidence.RoundTrip.{IsCaught, capture-reload}
use cognikernel.Evidence.Overlap.{slice_jsonl-covers}
use cognikernel.Evidence.Advance.{advance_cursor-keeps_lines}
use cognikernel.Evidence.Fuel.{walk_chain-enough_fuel}
use cognikernel.Evidence.Dedup.{store_evidence-known}

-- blobs that are texts, and a digest by length
abbrev digest : List ℕ → String
digest text = if length text == 2 then "two" else if length text == 4 then "four" else "other"

abbrev codec : Codec (List ℕ)
codec = record { compress = λ t. t; decompress = λ t. t; sha256 = digest }

program : Unit {0}
unfolding any first_where find_key update_where select strip is_space is_break extend split_lines
    has_text lines_of join_lines drop take overlap_lines anchor_lines compute_anchor is_continued
    slice_storage_delta slice_jsonl_for_extraction is_cursor_of get_cursor moved_cursor save_cursor
    advance_cursor ends_line add_chunk join_chunks find_evidence same_digest insert_evidence
    evidence_row store_evidence walk_chain collect_chunks load_full_transcript is_source_type
    captured_content capture
program = tt

-- "a\r\n\n b" has the lines "a" and " b"
splits : lines_of (97 ∷ 13 ∷ 10 ∷ 10 ∷ 32 ∷ 98 ∷ []) ≡ (97 ∷ []) ∷ (32 ∷ 98 ∷ []) ∷ []
unfolding program
splits = refl

abbrev first_chunk : Evidence (List ℕ)
first_chunk = record {
  id = 1;
  project_id = "p";
  session_id = "s";
  source_type = "transcript";
  captured_at = 10;
  content_sha256 = "other";
  content_blob = 97 ∷ [];
  prev_evidence_id = none;
}

abbrev archive : Archive (List ℕ)
archive = record { rows = first_chunk ∷ []; next_id = 2 }

first_capture :
    capture codec "p" "s" "transcript" (97 ∷ []) 10 none (record { rows = []; next_id = 1 })
    ≡ ok (archive, some 1)
unfolding program
first_capture = refl

abbrev cursor : IngestCursor
cursor = record {
  project_id = "p";
  session_id = "s";
  last_line_count = 1;
  anchor_sha256 = "other";
  updated_at = 20;
  last_evidence_id = some 1;
}

cursor-Marks : Marks digest cursor ((97 ∷ []) ∷ [])
unfolding program
cursor-Marks = record { count = refl; anchor = refl }

cursor-IsCaught : IsCaught codec archive cursor ((97 ∷ []) ∷ [])
unfolding program
cursor-IsCaught = record {
  below = omega arith;
  marks = cursor-Marks;
  leaf = 1;
  from_leaf = refl;
  held = 97 ∷ [];
  reads = refl;
  lines = refl;
}

-- "a\nb", which has a line more
abbrev grown : List ℕ
grown = 97 ∷ 10 ∷ 98 ∷ []

grown-lines : lines_of grown ≡ (97 ∷ []) ∷ (98 ∷ []) ∷ []
unfolding program
grown-lines = refl

grown-content : captured_content codec grown (some cursor) ≡ some (98 ∷ 10 ∷ [], some 1)
unfolding program
grown-content = refl

grown-fresh : any (same_digest codec "p" (digest (98 ∷ 10 ∷ []))) archive.rows ≡ false
unfolding program
grown-fresh = refl

source-known : is_source_type "transcript" ≡ true
unfolding program
source-known = refl

one_line-ne_nil : ◌≢◌ {A = List (List ℕ)} ((98 ∷ []) ∷ []) []
one_line-ne_nil e = ground arith

capture-reload_example :
    (s' : Archive (List ℕ)) × (id : ℕ) × (whole : List ℕ) × (capture codec "p" "s" "transcript"
        grown 30
        (some cursor)
        archive
      ≡ ok (s', some id))
    × (load_full_transcript codec s' id ≡ ok whole)
    × (lines_of whole ≡ lines_of grown)
capture-reload_example =
    capture-reload codec (λ t. refl) "p" "s" "transcript" grown 30 cursor archive ((97 ∷ []) ∷ [])
      ((98 ∷ []) ∷ []) cursor-IsCaught grown-lines one_line-ne_nil source-known (98 ∷ 10 ∷ [])
      (some 1) grown-content grown-fresh

slice_jsonl-covers_example :
    (lines_of (slice_jsonl_for_extraction digest grown (some cursor)).0
      ≡ drop 0 ((97 ∷ []) ∷ []) ++ (98 ∷ []) ∷ [])
    × Marks digest
        (record cursor {
          last_line_count = (slice_jsonl_for_extraction digest grown (some cursor)).1;
          anchor_sha256 = (slice_jsonl_for_extraction digest grown (some cursor)).2;
        })
        ((97 ∷ []) ∷ (98 ∷ []) ∷ [])
slice_jsonl-covers_example =
    slice_jsonl-covers digest grown cursor ((97 ∷ []) ∷ []) ((98 ∷ []) ∷ []) cursor-Marks refl
      grown-lines

finds_first :
    first_where (same_digest codec "p" (digest (120 ∷ []))) archive.rows ≡ some first_chunk
unfolding program
finds_first = refl

-- another text with the digest of the first chunk
store_evidence-known_example :
    store_evidence codec "p" "s" "transcript" (120 ∷ []) 40 (some 1) archive
    ≡ ok (burn_id codec archive, 1)
store_evidence-known_example =
    store_evidence-known codec "p" "s" "transcript" (120 ∷ []) 40 (some 1) archive first_chunk
      finds_first

has_cursor : get_cursor "p" "s" (cursor ∷ []) ≡ some cursor
unfolding program
has_cursor = refl

advance_cursor-keeps_lines_example :
    (c' : IngestCursor) × (get_cursor "p" "s"
        (advance_cursor (record cursor { last_line_count = 2 }) (cursor ∷ []))
      ≡ some c')
    × (1 ≤ c'.last_line_count)
    × (2 ≤ c'.last_line_count)
advance_cursor-keeps_lines_example =
    advance_cursor-keeps_lines (record cursor { last_line_count = 2 }) cursor (cursor ∷ [])
      has_cursor

-- two chunks that follow each other
abbrev looped : List (Evidence (List ℕ))
looped =
    record first_chunk { prev_evidence_id = some 2 }
    ∷ record first_chunk { id = 2; prev_evidence_id = some 1 }
    ∷ []

meets_itself : walk_chain codec looped 3 (some 1) [] ≡ err value_error
unfolding program
meets_itself = refl

walk_chain-enough_fuel_example :
    (walk_chain codec looped 5 (some 1) []
      ≡ walk_chain codec looped (length looped + 1) (some 1) [])
    × (walk_chain codec looped (length looped + 1) (some 1) [] ≢ err out_of_rounds)
walk_chain-enough_fuel_example = walk_chain-enough_fuel codec looped 5 (some 1) (omega arith)
