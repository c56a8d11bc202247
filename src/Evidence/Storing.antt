-- ===== src/Evidence/Storing.antt =====
-- storage/evidence.py, integration/session.py: the content that is captured of a grown transcript, and the
-- row that it gets.
use cognikernel.Prelude.{
  is_empty, first_where-append_one, ℕ, ◌+◌, ◌≡◌, ◌≢◌, ◌<◌, refl, ap, String, true, false, Option,
  none, some, List, [], ◌∷◌, ◌++◌, ok, arith, ◌==◌, eq_refl, any, All, find_key,
}
use cognikernel.Evidence.Lines.{lines_of, join_lines}
use cognikernel.Evidence.Splitting.{drop-length}
use cognikernel.Evidence.Cursors.{IngestCursor, is_continued, slice_storage_delta}
use cognikernel.Evidence.Chain.{
  Codec, Evidence, Archive, find_evidence, same_digest, insert_evidence, evidence_row,
  store_evidence, is_source_type, captured_content,
}
use cognikernel.Evidence.Marks.{Marks, continues}

pub find-fresh :
    {Blob : Type 0} (codec : Codec Blob) (n : ℕ) (rows : List (Evidence Blob))
    → All (λ r. r.id < n) rows
    → find_evidence codec n rows ≡ none
unfolding find_evidence find_key
find-fresh codec n [] h = refl
find-fresh codec n (r ∷ rows) h = ground (arith, find-fresh codec n rows h.1)

module _ {Blob : Type 0} (codec : Codec Blob) where
  -- the content of the chunk and the chunk before it
  abbrev pub delta : List (List ℕ) → List ℕ
  delta new = join_lines new ++ 10 ∷ []

  not_empty {ℓ} : {A : Type ℓ} (xs : List A) → xs ≢ [] → is_empty xs ≡ false
  not_empty [] ne = absurd (ne refl)
  not_empty (x ∷ xs) ne = refl

  pub content-delta :
      (text : List ℕ) (c : IngestCursor) (seen new : List (List ℕ))
      → Marks codec.sha256 c seen
      → lines_of text ≡ seen ++ new
      → new ≢ []
      → (c.last_line_count == 0) ≡ false
      → captured_content codec text (some c) ≡ some (delta new, c.last_evidence_id)
  unfolding captured_content slice_storage_delta
  content-delta text c seen new marks grown ne some_lines =
      rw
        (
          grown,
          continues codec.sha256 c seen new marks some_lines,
          marks.count,
          drop-length seen new,
          not_empty new ne,
        )
        refl

  pub content-root :
      (text : List ℕ) (c : IngestCursor)
      → (c.last_line_count == 0) ≡ true
      → captured_content codec text (some c) ≡ some (text, none)
  unfolding captured_content slice_storage_delta is_continued
  content-root text c no_lines = rw no_lines refl

  inserted-new :
      (row : Evidence Blob) (s : Archive Blob)
      → is_source_type row.source_type ≡ true
      → any (same_digest codec row.project_id row.content_sha256) s.rows ≡ false
      → insert_evidence codec row s ≡ record { rows = s.rows ++ row ∷ []; next_id = s.next_id + 1 }
  unfolding insert_evidence
  inserted-new row s known fresh = rw (known, fresh) refl

  same_digest_self :
      (row : Evidence Blob) → same_digest codec row.project_id row.content_sha256 row ≡ true
  unfolding same_digest
  same_digest_self row = ground (arith, eq_refl row.project_id, eq_refl row.content_sha256)

  pub stored-new :
      (project session source_type : String) (content : List ℕ) (now : ℕ) (prev : Option ℕ)
      (s : Archive Blob)
      → is_source_type source_type ≡ true
      → any (same_digest codec project (codec.sha256 content)) s.rows ≡ false
      → store_evidence codec project session source_type content now prev s
        ≡ ok (
          record {
            rows =
                s.rows
                ++ evidence_row codec project session source_type content now prev s.next_id ∷ [];
            next_id = s.next_id + 1;
          },
          s.next_id,
        )
  unfolding store_evidence evidence_row
  stored-new project session source_type content now prev s known fresh =
      let row = evidence_row codec project session source_type content now prev s.next_id in
      rw
        (
          inserted-new row s known fresh,
          first_where-append_one (same_digest codec project (codec.sha256 content)) row s.rows fresh
              (same_digest_self row),
          store_evidence,
        )
        (ap (λ (x : Archive Blob). ok (x, s.next_id)) (inserted-new row s known fresh))
