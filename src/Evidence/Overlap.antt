-- ===== src/Evidence/Overlap.antt =====
-- storage/cursors.py: what is extracted of a growing transcript misses no line.
use cognikernel.Prelude.{
  drop, ℕ, ◌-◌, ◌≡◌, refl, ap, ◌∙◌, String, true, false, some, List, ◌++◌, arith, ◌==◌, length,
}
use cognikernel.Evidence.Lines.{lines_of, join_lines, has_text}
use cognikernel.Evidence.Splitting.{
  IsLine, lines-join, lines-IsLine, lines-has_text, All-drop, drop-append,
}
use cognikernel.Evidence.Cursors.{
  IngestCursor, overlap_lines, is_continued, slice_jsonl_for_extraction,
}
use cognikernel.Evidence.Marks.{Marks, continues}

module _ (sha256 : List ℕ → String) where
  -- The slice of a grown transcript that is extracted has every new line, after the last 20 of the
  -- lines before (all of them where they are fewer); the count and the anchor returned are those of
  -- the whole transcript.
  pub slice_jsonl-covers :
      (text : List ℕ) (c : IngestCursor) (seen new : List (List ℕ))
      → Marks sha256 c seen
      → (c.last_line_count == 0) ≡ false
      → lines_of text ≡ seen ++ new
      → (lines_of (slice_jsonl_for_extraction sha256 text (some c)).0
          ≡ drop (length seen - 20) seen ++ new)
        × Marks sha256
            (record c {
              last_line_count = (slice_jsonl_for_extraction sha256 text (some c)).1;
              anchor_sha256 = (slice_jsonl_for_extraction sha256 text (some c)).2;
            })
            (seen ++ new)
  unfolding slice_jsonl_for_extraction overlap_lines
  slice_jsonl-covers text c seen new marks some_lines grown =
      let n = c.last_line_count - 20 in
      let going : is_continued sha256 (lines_of text) c ≡ true =
        rw grown (continues sha256 c seen new marks some_lines) in
      let joined : lines_of (join_lines (drop n (lines_of text))) ≡ drop n (lines_of text) =
        lines-join (drop n (lines_of text)) (All-drop IsLine n (lines_of text) (lines-IsLine text))
          (All-drop (λ l. has_text l ≡ true) n (lines_of text) (lines-has_text text)) in
      let cut : drop n (lines_of text) ≡ drop (length seen - 20) seen ++ new =
        ap (drop n) grown
        ∙ ap (λ k. drop (k - 20) (seen ++ new)) marks.count
        ∙ drop-append (length seen - 20) seen new (omega arith) in
      (rw going (joined ∙ cut), rw going (rw grown (record { count = refl; anchor = refl })))
