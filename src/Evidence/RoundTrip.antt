-- ===== src/Evidence/RoundTrip.antt =====
-- storage/evidence.py, integration/session.py: what is captured of a growing transcript is read back.
use cognikernel.Prelude.{
  ℕ, ◌+◌, ◌≡◌, ◌≢◌, ◌<◌, refl, ap, sym, ◌∙◌, subst, String, true, false, Option, none, some, List,
  [], ◌∷◌, ◌++◌, ok, arith, ◌==◌, any, All, Bool-cases, inl, inr,
}
use cognikernel.Evidence.Lines.{lines_of, join_lines, has_text}
use cognikernel.Evidence.Splitting.{
  IsLine, lines-last_feed, lines-join, lines-IsLine, lines-has_text, All-right,
}
use cognikernel.Evidence.Cursors.{IngestCursor}
use cognikernel.Evidence.Chain.{
  Codec, Evidence, Archive, same_digest, evidence_row, load_full_transcript, is_source_type,
  captured_content, capture,
}
use cognikernel.Evidence.Reload.{load-chained, load-root}
use cognikernel.Evidence.Marks.{Marks}
use cognikernel.Evidence.Storing.{find-fresh, delta, content-delta, content-root, stored-new}

-- The state of a session whose transcript had the lines `seen`: the ids are below the next one, and
-- the cursor marks the lines and the chain that holds them.
pub record IsCaught {Blob : Type 0} (codec : Codec Blob) (s : Archive Blob) (c : IngestCursor)
    (seen : List (List ℕ)) : Type 0 where
  pub below : All (λ r. r.id < s.next_id) s.rows
  pub marks : Marks codec.sha256 c seen
  pub leaf : ℕ
  pub from_leaf : c.last_evidence_id ≡ some leaf
  pub held : List ℕ
  pub reads : load_full_transcript codec s leaf ≡ ok held
  pub lines : lines_of held ≡ seen

module _ {Blob : Type 0} (codec : Codec Blob)
    (decompress-compress : (t : List ℕ) → codec.decompress (codec.compress t) ≡ t) where
  lines-delta :
      (text : List ℕ) (seen new : List (List ℕ))
      → lines_of text ≡ seen ++ new
      → lines_of (delta codec new) ≡ new
  lines-delta text seen new grown =
      lines-last_feed (join_lines new)
      ∙ lines-join new
          (All-right IsLine seen new (subst (λ ls. All IsLine ls) grown (lines-IsLine text)))
          (All-right (λ l. has_text l ≡ true) seen new
            (subst (λ ls. All (λ l. has_text l ≡ true) ls) grown (lines-has_text text)))

  -- the chunk that the capture stores, and the store with it
  abbrev chunk : String → String → String → List ℕ → ℕ → Option ℕ → Archive Blob → Evidence Blob
  chunk project session source_type content now prev s =
      evidence_row codec project session source_type content now prev s.next_id

  abbrev with_chunk : String → String → String → List ℕ → ℕ → Option ℕ → Archive Blob → Archive Blob
  with_chunk project session source_type content now prev s = record {
    rows = s.rows ++ chunk project session source_type content now prev s ∷ [];
    next_id = s.next_id + 1;
  }

  chunk-reload :
      (project session source_type : String) (text : List ℕ) (now : ℕ) (c : IngestCursor)
      (s : Archive Blob) (seen new : List (List ℕ))
      → IsCaught codec s c seen
      → lines_of text ≡ seen ++ new
      → new ≢ []
      → (content : List ℕ) (prev : Option ℕ)
      → captured_content codec text (some c) ≡ some (content, prev)
      → (whole : List ℕ) × (load_full_transcript codec
            (with_chunk project session source_type content now prev s)
            s.next_id
          ≡ ok whole)
        × (lines_of whole ≡ lines_of text)
  unfolding evidence_row
  chunk-reload project session source_type text now c s seen new caught grown ne content prev
        captured =
      let row = chunk project session source_type content now prev s in
      let missing = find-fresh codec s.next_id s.rows caught.below in
      elim (Bool-cases (c.last_line_count == 0)) [
        | inl t ↦
            let e = sym captured ∙ content-root codec text c t in
            let same : content ≡ text = ground arith in
            let first : prev ≡ none = ground arith in
            (
              codec.decompress (codec.compress content),
              load-root codec s.rows row (s.next_id + 1) missing first,
              ap lines_of (decompress-compress content ∙ same),
            )
        | inr t ↦
            let e = sym captured ∙ content-delta codec text c seen new caught.marks grown ne t in
            let same : content ≡ delta codec new = ground arith in
            let next : prev ≡ some caught.leaf = ground arith in
            let (whole, loaded, parts) =
              load-chained codec s.rows row s.next_id (s.next_id + 1) caught.leaf caught.held
                missing next caught.reads in
            (
              whole,
              loaded,
              parts
                  ∙ ap (λ ls. ls ++ lines_of (codec.decompress (codec.compress content)))
                      caught.lines
                  ∙ ap (λ ls. seen ++ ls)
                      (ap lines_of (decompress-compress content ∙ same)
                        ∙ lines-delta text seen new grown)
                  ∙ sym grown,
            )
      ]

  -- A transcript that has grown by the lines `new` is captured: the call returns the id of a chunk,
  -- and loading the transcript from that chunk returns a text with exactly the lines of the whole
  -- transcript. Decompression is taken to undo compression, the source type to be known, and no
  -- chunk of the project to have the digest of the content that is stored.
  pub capture-reload :
      (project session source_type : String) (text : List ℕ) (now : ℕ) (c : IngestCursor)
      (s : Archive Blob) (seen new : List (List ℕ))
      → IsCaught codec s c seen
      → lines_of text ≡ seen ++ new
      → new ≢ []
      → is_source_type source_type ≡ true
      → (content : List ℕ) (prev : Option ℕ)
      → captured_content codec text (some c) ≡ some (content, prev)
      → any (same_digest codec project (codec.sha256 content)) s.rows ≡ false
      → (s' : Archive Blob) × (id : ℕ) × (whole : List ℕ) × (capture codec project session
            source_type text now
            (some c)
            s
          ≡ ok (s', some id))
        × (load_full_transcript codec s' id ≡ ok whole)
        × (lines_of whole ≡ lines_of text)
  unfolding capture
  capture-reload project session source_type text now c s seen new caught grown ne known content
        prev captured fresh =
      let (whole, loaded, lines) =
        chunk-reload project session source_type text now c s seen new caught grown ne content prev
          captured in
      (
        with_chunk project session source_type content now prev s,
        s.next_id,
        whole,
        rw
            (
              captured,
              stored-new codec project session source_type content now prev s known fresh,
              capture,
            )
            refl,
        loaded,
        lines,
      )
