-- ===== src/Evidence/Advance.antt =====
-- storage/cursors.py, integration/session.py: the high-water mark of a session never moves back.
use cognikernel.Prelude.{
  first_where-update_where, ◌≤◌, ◌≡◌, refl, some, List, arith, ltb, any-first_where, Bool-cases,
  inl, inr,
}
use cognikernel.Evidence.Cursors.{
  IngestCursor, is_cursor_of, get_cursor, save_cursor, moved_cursor, advance_cursor,
}

saved :
    (new c : IngestCursor) (rows : List IngestCursor)
    → get_cursor new.project_id new.session_id rows ≡ some c
    → get_cursor new.project_id new.session_id (save_cursor new rows) ≡ some (moved_cursor new c)
unfolding get_cursor save_cursor
saved new c rows found =
    rw (any-first_where (is_cursor_of new.project_id new.session_id) rows c found, save_cursor)
      (first_where-update_where (is_cursor_of new.project_id new.session_id) (moved_cursor new) rows
        c (λ x. unfold is_cursor_of moved_cursor in refl) found)

-- A session that has a cursor has one after an advance, and its line count is at least the old one
-- and at least the new one.
pub advance_cursor-keeps_lines :
    (new c : IngestCursor) (rows : List IngestCursor)
    → get_cursor new.project_id new.session_id rows ≡ some c
    → (c' : IngestCursor) × (get_cursor new.project_id new.session_id (advance_cursor new rows)
        ≡ some c')
      × (c.last_line_count ≤ c'.last_line_count)
      × (new.last_line_count ≤ c'.last_line_count)
unfolding advance_cursor
advance_cursor-keeps_lines new c rows found =
    elim (Bool-cases (ltb new.last_line_count c.last_line_count)) [
      | inl t ↦ (c, rw (found, t, advance_cursor) found, omega arith, ground arith)
      | inr t ↦ (
        moved_cursor new c,
        rw (found, t, advance_cursor) (saved new c rows found),
        unfold moved_cursor in ground arith,
        unfold moved_cursor in omega arith,
      )
    ]
