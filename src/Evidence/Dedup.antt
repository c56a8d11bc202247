-- ===== src/Evidence/Dedup.antt =====
-- storage/evidence.py: a content that is stored already.
use cognikernel.Prelude.{
  ℕ, ◌≡◌, ap, ◌∙◌, String, true, Option, some, List, ok, arith, any, first_where, any-first_where,
}
use cognikernel.Evidence.Chain.{
  Codec, Evidence, Archive, same_digest, burn_id, insert_evidence, evidence_row, store_evidence,
}

module _ {Blob : Type 0} (codec : Codec Blob) where
  ignored :
      (row : Evidence Blob) (s : Archive Blob)
      → any (same_digest codec row.project_id row.content_sha256) s.rows ≡ true
      → insert_evidence codec row s ≡ burn_id codec s
  unfolding insert_evidence
  ignored row s taken = ground arith

  -- Storing a content whose digest a chunk of the project has leaves every chunk as it is and returns
  -- the id of the first such chunk, whatever chunk the content was to follow; it only uses up an
  -- AUTOINCREMENT id.
  pub store_evidence-known :
      (project session source_type : String) (content : List ℕ) (now : ℕ) (prev : Option ℕ)
      (s : Archive Blob) (r : Evidence Blob)
      → first_where (same_digest codec project (codec.sha256 content)) s.rows ≡ some r
      → store_evidence codec project session source_type content now prev s
        ≡ ok (burn_id codec s, r.id)
  unfolding store_evidence evidence_row
  store_evidence-known project session source_type content now prev s r found =
      let row = evidence_row codec project session source_type content now prev s.next_id in
      let same : insert_evidence codec row s ≡ burn_id codec s =
        ignored row s
          (any-first_where (same_digest codec project (codec.sha256 content)) s.rows r found) in
      let read : first_where (same_digest codec project (codec.sha256 content))
            (insert_evidence codec row s).rows
          ≡ some r =
        ap
          (λ (x : Archive Blob).
            first_where (same_digest codec project (codec.sha256 content)) x.rows)
          same
        ∙ found in
      rw (read, store_evidence) (ap (λ (x : Archive Blob). ok (x, r.id)) same)
