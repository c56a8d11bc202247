-- ===== src/Evidence/Cursors.antt =====
-- storage/cursors.py: the high-water mark of a session's transcript, and the slices that it cuts.
-- The hash of a text is a parameter.
use cognikernel.Prelude.{
  drop, is_empty, take, ℕ, ◌-◌, String, Bool, true, false, not, ◌&&◌, Option, none, some, List, [],
  ◌∷◌, ◌++◌, ltb, ◌==◌, if◌then◌else◌, str_eq, any, first_where, update_where, length,
}
use cognikernel.Evidence.Lines.{lines_of, join_lines}

-- OVERLAP_LINES
unfoldable pub overlap_lines : ℕ
overlap_lines = 20

-- ANCHOR_LINES
unfoldable pub anchor_lines : ℕ
anchor_lines = 5

pub record IngestCursor : Type 0 where
  pub project_id : String
  pub session_id : String
  pub last_line_count : ℕ
  pub anchor_sha256 : String
  pub updated_at : ℕ
  pub last_evidence_id : Option ℕ

unfoldable pub is_cursor_of : String → String → IngestCursor → Bool
is_cursor_of project session c = str_eq c.project_id project && str_eq c.session_id session

unfoldable pub get_cursor : String → String → List IngestCursor → Option IngestCursor
unfolding is_cursor_of
get_cursor project session rows = first_where (is_cursor_of project session) rows

-- the columns that a conflict overwrites
unfoldable pub moved_cursor : IngestCursor → IngestCursor → IngestCursor
moved_cursor new c = record c {
  last_line_count = new.last_line_count;
  anchor_sha256 = new.anchor_sha256;
  last_evidence_id = new.last_evidence_id;
  updated_at = new.updated_at;
}

-- INSERT … ON CONFLICT(project_id, session_id) DO UPDATE
unfoldable pub save_cursor : IngestCursor → List IngestCursor → List IngestCursor
unfolding is_cursor_of moved_cursor
save_cursor new rows =
    if any (is_cursor_of new.project_id new.session_id) rows
    then update_where (is_cursor_of new.project_id new.session_id) (moved_cursor new) rows
    else rows ++ new ∷ []

-- integration/session.py: the cursor moves once a merge has ended, and never back
unfoldable pub advance_cursor : IngestCursor → List IngestCursor → List IngestCursor
unfolding get_cursor save_cursor
advance_cursor new rows = elim (get_cursor new.project_id new.session_id rows) [
  | none ↦ save_cursor new rows
  | some latest ↦
      if ltb new.last_line_count latest.last_line_count then rows else save_cursor new rows
]

module _ (sha256 : List ℕ → String) where
  -- the hash of the lines just before `up_to_line`
  unfoldable pub compute_anchor : List (List ℕ) → ℕ → String
  unfolding anchor_lines
  compute_anchor lines up_to_line =
      let start = up_to_line - anchor_lines in
      sha256 (join_lines (drop start (take up_to_line lines)))

  -- whether the transcript still has what the cursor saw: no compaction
  unfoldable pub is_continued : List (List ℕ) → IngestCursor → Bool
  is_continued lines c =
      not (c.last_line_count == 0)
      && not (ltb (length lines) c.last_line_count)
      && str_eq (compute_anchor lines c.last_line_count) c.anchor_sha256

  -- the text to store, whether it is a delta, and whether there is anything new
  unfoldable pub slice_storage_delta : List ℕ → Option IngestCursor → List ℕ × Bool × Bool
  unfolding is_continued
  slice_storage_delta text cursor =
      let lines = lines_of text in
      let full = join_lines lines ++ 10 ∷ [] in
      elim cursor [
        | none ↦ (full, false, true)
        | some c ↦
            let new_lines = drop c.last_line_count lines in
            if not (is_continued lines c)
            then (full, false, true)
            else if is_empty new_lines
            then ([], false, false)
            else (join_lines new_lines ++ 10 ∷ [], true, true)
      ]

  unfoldable pub slice_jsonl_for_extraction : List ℕ → Option IngestCursor → List ℕ × ℕ × String
  unfolding is_continued overlap_lines
  slice_jsonl_for_extraction text cursor =
      let lines = lines_of text in
      let count = length lines in
      let anchor = compute_anchor lines count in
      elim cursor [
        | none ↦ (text, count, anchor)
        | some c ↦
            if not (is_continued lines c)
            then (text, count, anchor)
            else (join_lines (drop (c.last_line_count - overlap_lines) lines), count, anchor)
      ]
