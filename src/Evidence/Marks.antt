-- ===== src/Evidence/Marks.antt =====
-- storage/cursors.py: a transcript that has grown still has what its cursor marks.
use cognikernel.Prelude.{
  drop, ℕ, ◌-◌, ◌≡◌, ◌≤◌, ap, String, true, false, List, [], ◌∷◌, ◌++◌, arith, ◌==◌, eq_refl,
  length,
}
use cognikernel.Evidence.Lines.{join_lines}
use cognikernel.Evidence.Splitting.{take-append}
use cognikernel.Evidence.Cursors.{IngestCursor, anchor_lines, compute_anchor, is_continued}

pub length-append_ge {ℓ} : {A : Type ℓ} (xs ys : List A) → length xs ≤ length (xs ++ ys)
length-append_ge [] ys = omega arith
length-append_ge (x ∷ xs) ys = ground (arith, length-append_ge xs ys)

-- What a cursor knows of the lines that the transcript had: their number and the hash of the last.
pub record Marks (sha256 : List ℕ → String) (c : IngestCursor) (seen : List (List ℕ)) : Type 0 where
  pub count : c.last_line_count ≡ length seen
  pub anchor : c.anchor_sha256 ≡ compute_anchor sha256 seen (length seen)

module _ (sha256 : List ℕ → String) (c : IngestCursor) (seen new : List (List ℕ))
    (marks : Marks sha256 c seen) where
  anchor-append :
      compute_anchor sha256 (seen ++ new) (length seen) ≡ compute_anchor sha256 seen (length seen)
  unfolding compute_anchor
  anchor-append =
      ap (λ ls. sha256 (join_lines (drop (length seen - anchor_lines) ls)))
        (take-append (length seen) seen new (omega arith))

  pub continues : (c.last_line_count == 0) ≡ false → is_continued sha256 (seen ++ new) c ≡ true
  unfolding is_continued
  continues some_lines =
      rw (some_lines, marks.count, anchor-append, marks.anchor)
        (ground
          (arith, length-append_ge seen new, eq_refl (compute_anchor sha256 seen (length seen))))
