-- ===== src/Evidence/Chain.antt =====
-- storage/evidence.py, integration/session.py: chunks of evidence, and the transcript that a chain of
-- them holds. Contents are texts: UTF-8 encodes a line feed, and nothing else, by the byte of one.
use cognikernel.Prelude.{
  is_empty, ℕ, zero, suc, ◌+◌, String, Bool, false, not, ◌&&◌, ◌||◌, Option, none, some, List, [],
  ◌∷◌, ◌++◌, Result, ok, err, value_error, type_error, out_of_rounds, ◌>>=◌, ◌==◌, if◌then◌else◌,
  str_eq, any, first_where, find_key, length,
}
use cognikernel.Evidence.Cursors.{IngestCursor, slice_storage_delta}

-- `zlib` and `hashlib.sha256`
pub record Codec (Blob : Type 0) : Type 0 where
  pub compress : List ℕ → Blob
  pub decompress : Blob → List ℕ
  pub sha256 : List ℕ → String

-- A row of `raw_evidence`, but for its sizes and its metadata.
pub record Evidence (Blob : Type 0) : Type 0 where
  pub id : ℕ
  pub project_id : String
  pub session_id : String
  pub source_type : String
  pub captured_at : ℕ
  pub content_sha256 : String
  pub content_blob : Blob
  pub prev_evidence_id : Option ℕ

pub record Archive (Blob : Type 0) : Type 0 where
  pub rows : List (Evidence Blob)
  pub next_id : ℕ

unfoldable pub is_source_type : String → Bool
is_source_type t =
    str_eq t "transcript"
    || str_eq t "jsonl_transcript"
    || str_eq t "codex_rollout"
    || str_eq t "git_diff"
    || str_eq t "tool_payload"
    || str_eq t "manual"

-- chunks[-1].endswith(b"\n")
unfoldable pub ends_line : List ℕ → Bool
ends_line [] = false
ends_line (c ∷ []) = c == 10
ends_line (c ∷ d ∷ cs) = ends_line (d ∷ cs)

-- The chunks so far, the newest first, and one more: a line feed goes between where it is missing.
unfoldable pub add_chunk : List (List ℕ) → List ℕ → List (List ℕ)
unfolding ends_line
add_chunk [] blob = blob ∷ []
add_chunk (last ∷ chunks) blob =
    if not (ends_line last) && not (is_empty blob)
    then blob ∷ (10 ∷ []) ∷ last ∷ chunks
    else blob ∷ last ∷ chunks

-- b"".join(chunks), of chunks with the newest first
unfoldable pub join_chunks : List (List ℕ) → List ℕ
join_chunks [] = []
join_chunks (c ∷ chunks) = join_chunks chunks ++ c

module _ {Blob : Type 0} (codec : Codec Blob) where
  unfoldable pub find_evidence : ℕ → List (Evidence Blob) → Option (Evidence Blob)
  find_evidence i rows = find_key (λ (r : Evidence Blob). r.id) i rows

  -- UNIQUE (project_id, content_sha256)
  unfoldable pub same_digest : String → String → Evidence Blob → Bool
  same_digest project digest r = str_eq r.project_id project && str_eq r.content_sha256 digest

  -- an INSERT that is ignored uses up an AUTOINCREMENT id
  abbrev pub burn_id : Archive Blob → Archive Blob
  burn_id s = record s { next_id = s.next_id + 1 }

  -- INSERT OR IGNORE
  unfoldable pub insert_evidence : Evidence Blob → Archive Blob → Archive Blob
  unfolding is_source_type same_digest
  insert_evidence row s =
      if not (is_source_type row.source_type)
        || any (same_digest row.project_id row.content_sha256) s.rows
      then burn_id s
      else record { rows = s.rows ++ row ∷ []; next_id = s.next_id + 1 }

  unfoldable pub evidence_row : String → String → String → List ℕ → ℕ → Option ℕ → ℕ → Evidence Blob
  evidence_row project session source_type content now prev id = record {
    id = id;
    project_id = project;
    session_id = session;
    source_type = source_type;
    captured_at = now;
    content_sha256 = codec.sha256 content;
    content_blob = codec.compress content;
    prev_evidence_id = prev;
  }

  unfoldable pub store_evidence :
      String → String → String → List ℕ → ℕ → Option ℕ → Archive Blob → Result (Archive Blob × ℕ)
  unfolding insert_evidence evidence_row same_digest
  store_evidence project session source_type content now prev s =
      let row = evidence_row project session source_type content now prev s.next_id in
      let s' = insert_evidence row s in
      elim (first_where (same_digest project row.content_sha256) s'.rows) [
        | none ↦ err type_error
        | some r ↦ ok (s', r.id)
      ]

  -- The first loop of `load_full_transcript`: the ids of the chain, the root first. It has `n` rounds
  -- left, and ends with an error of its own where they are spent.
  unfoldable pub walk_chain : List (Evidence Blob) → ℕ → Option ℕ → List ℕ → Result (List ℕ)
  unfolding find_evidence
  walk_chain rows n none chain = ok chain
  walk_chain rows zero (some i) chain = err out_of_rounds
  walk_chain rows (suc n) (some i) chain =
      if any (λ v. v == i) chain then err value_error else (elim (find_evidence i rows) [
        | none ↦ err value_error
        | some r ↦ walk_chain rows n r.prev_evidence_id (i ∷ chain)
      ])

  -- the second loop
  unfoldable pub collect_chunks :
      List (Evidence Blob) → List ℕ → List (List ℕ) → Result (List (List ℕ))
  unfolding find_evidence add_chunk
  collect_chunks rows [] chunks = ok chunks
  collect_chunks rows (i ∷ ids) chunks = elim (find_evidence i rows) [
    | none ↦ err type_error
    | some r ↦ collect_chunks rows ids (add_chunk chunks (codec.decompress r.content_blob))
  ]

  unfoldable pub load_full_transcript : Archive Blob → ℕ → Result (List ℕ)
  unfolding join_chunks
  load_full_transcript s evidence_id = do
    ids ← walk_chain s.rows (length s.rows + 1) (some evidence_id) []
    chunks ← collect_chunks s.rows ids []
    ok (join_chunks chunks)

  -- integration/session.py: what `session_capture` stores of a transcript; `none`
  -- where nothing is new
  unfoldable pub captured_content : List ℕ → Option IngestCursor → Option (List ℕ × Option ℕ)
  captured_content text cursor =
      let (delta, is_delta, has_new) = slice_storage_delta codec.sha256 text cursor in
      if not has_new
      then none
      else if is_delta
      then some (delta, elim cursor [ none ↦ none | some c ↦ c.last_evidence_id ])
      else some (text, none)

  -- that chunk of `session_capture`, and the id that the job is enqueued with; a git diff would be one
  -- more call of `store_evidence` before
  unfoldable pub capture :
      String
      → String
      → String
      → List ℕ
      → ℕ
      → Option IngestCursor
      → Archive Blob
      → Result (Archive Blob × Option ℕ)
  unfolding captured_content
  capture project session source_type text now cursor s = elim (captured_content text cursor) [
    | none ↦ ok (s, none)
    | some (content, prev) ↦ do
      (s', id) ← store_evidence project session source_type content now prev s
      ok (s', some id)
  ]
