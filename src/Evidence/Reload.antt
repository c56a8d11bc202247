-- ===== src/Evidence/Reload.antt =====
-- storage/evidence.py: how a chunk that is appended to a chain is read back.
use cognikernel.Prelude.{
  ℕ, zero, suc, ◌+◌, ◌≡◌, refl, ap, sym, ◌∙◌, subst, true, false, Option, none, some, List, [], ◌∷◌,
  ◌++◌, ok, >>=-eq-ok, arith, ◌==◌, eq_self, eq→≡, any, Bool-cases, Option-cases, inl, inr, select,
  find_key, find_key-append, length,
}
use cognikernel.Evidence.Lines.{lines_of}
use cognikernel.Evidence.Splitting.{lines-feed, append_nil}
use cognikernel.Evidence.Chain.{
  Codec, Evidence, Archive, ends_line, add_chunk, join_chunks, find_evidence, walk_chain,
  collect_chunks, load_full_transcript,
}

append_assoc {ℓ} : {A : Type ℓ} (xs ys zs : List A) → (xs ++ ys) ++ zs ≡ xs ++ (ys ++ zs)
append_assoc [] ys zs = refl
append_assoc (x ∷ xs) ys zs = ap (λ l. x ∷ l) (append_assoc xs ys zs)

-- a text that ends a line
before_feed : (l : List ℕ) → ends_line l ≡ true → (m : List ℕ) × (l ≡ m ++ 10 ∷ [])
unfolding ends_line
before_feed [] h = absurd (ground arith)
before_feed (c ∷ []) h = ([], ap (λ x. x ∷ []) (eq→≡ c 10 h))
before_feed (c ∷ d ∷ l) h = let (m, e) = before_feed (d ∷ l) h in (c ∷ m, ap (λ x. c ∷ x) e)

lines-no_more : (xs : List ℕ) → lines_of xs ++ lines_of [] ≡ lines_of xs
unfolding lines_of select
lines-no_more xs = append_nil (lines_of xs)

lines-ended :
    (xs l ys : List ℕ)
    → ends_line l ≡ true
    → lines_of ((xs ++ l) ++ ys) ≡ lines_of (xs ++ l) ++ lines_of ys
lines-ended xs l ys h =
    let (m, e) = before_feed l h in
    let split : xs ++ l ≡ (xs ++ m) ++ 10 ∷ [] =
      ap (λ x. xs ++ x) e ∙ sym (append_assoc xs m (10 ∷ [])) in
    ap (λ x. lines_of (x ++ ys)) split
    ∙ ap lines_of (append_assoc (xs ++ m) (10 ∷ []) ys)
    ∙ lines-feed (xs ++ m) ys
    ∙ ap (λ x. x ++ lines_of ys)
        (sym (ap lines_of split ∙ lines-feed (xs ++ m) [] ∙ lines-no_more (xs ++ m)))

-- a chunk that does not end its line, and the chunk after it
lines-open :
    (last : List ℕ) (chunks : List (List ℕ)) (blob : List ℕ)
    → ends_line last ≡ false
    → lines_of (join_chunks (add_chunk (last ∷ chunks) blob))
      ≡ lines_of (join_chunks (last ∷ chunks)) ++ lines_of blob
unfolding add_chunk join_chunks
lines-open last chunks [] t = rw t (
    ap lines_of (append_nil (join_chunks chunks ++ last))
    ∙ sym (lines-no_more (join_chunks chunks ++ last)))
lines-open last chunks (c ∷ blob) t = rw t (
    ap lines_of (append_assoc (join_chunks chunks ++ last) (10 ∷ []) (c ∷ blob))
    ∙ lines-feed (join_chunks chunks ++ last) (c ∷ blob))

-- the lines of a chunk come after those of the chunks before
pub lines-add_chunk :
    (chunks : List (List ℕ)) (blob : List ℕ)
    → lines_of (join_chunks (add_chunk chunks blob))
      ≡ lines_of (join_chunks chunks) ++ lines_of blob
unfolding add_chunk join_chunks lines_of select
lines-add_chunk [] blob = refl
lines-add_chunk (last ∷ chunks) blob = elim (Bool-cases (ends_line last)) [
  | inl t ↦ rw t (lines-ended (join_chunks chunks) last blob t)
  | inr t ↦ lines-open last chunks blob t
]

length_one_more {ℓ} : {A : Type ℓ} (x : A) (xs : List A) → length (xs ++ x ∷ []) ≡ length xs + 1
length_one_more x [] = refl
length_one_more x (y ∷ xs) = ap suc (length_one_more x xs) ∙ omega arith

find_key-appended {ℓ} :
    {A : Type ℓ} (key : A → ℕ) (row : A) (rows : List A)
    → find_key key (key row) rows ≡ none
    → find_key key (key row) (rows ++ row ∷ []) ≡ some row
unfolding find_key
find_key-appended key row [] h = rw (eq_self (key row)) refl
find_key-appended key row (r ∷ rows) h = ground (arith, find_key-appended key row rows)

module _ {Blob : Type 0} (codec : Codec Blob) (rows : List (Evidence Blob))
    (row : Evidence Blob) where
  find-appended :
      find_evidence codec row.id rows ≡ none
      → find_evidence codec row.id (rows ++ row ∷ []) ≡ some row
  unfolding find_evidence
  find-appended = find_key-appended (λ (r : Evidence Blob). r.id) row rows

  find-kept :
      (i : ℕ) (r : Evidence Blob)
      → find_evidence codec i rows ≡ some r
      → find_evidence codec i (rows ++ row ∷ []) ≡ some r
  unfolding find_evidence
  find-kept i r h = find_key-append (λ (x : Evidence Blob). x.id) i rows (row ∷ []) r h

  any-append_one :
      (i j : ℕ) (chain : List ℕ)
      → any (λ v. v == i) chain ≡ false
      → (j == i) ≡ false
      → any (λ v. v == i) (chain ++ j ∷ []) ≡ false
  unfolding any
  any-append_one i j [] h k = rw k refl
  any-append_one i j (v ∷ chain) h k = ground (arith, any-append_one i j chain)

  other_id :
      (i : ℕ) (r : Evidence Blob)
      → find_evidence codec row.id rows ≡ none
      → find_evidence codec i rows ≡ some r
      → (row.id == i) ≡ false
  other_id i r m e = elim (Bool-cases (row.id == i)) [
    | inr t ↦ t
    | inl t ↦
        let e' : find_evidence codec row.id rows ≡ some r =
          subst (λ x. find_evidence codec x rows ≡ some r) (sym (eq→≡ row.id i t)) e in
        absurd (ground arith)
  ]

  -- a walk in the old rows is one in the new, behind the new chunk
  walk-extended :
      (n : ℕ) (cur : Option ℕ) (chain ids : List ℕ)
      → find_evidence codec row.id rows ≡ none
      → walk_chain codec rows n cur chain ≡ ok ids
      → walk_chain codec (rows ++ row ∷ []) n cur (chain ++ row.id ∷ []) ≡ ok (ids ++ row.id ∷ [])
  unfolding walk_chain
  walk-extended n none chain ids m w = ground arith
  walk-extended zero (some i) chain ids m w = absurd (ground arith)
  walk-extended (suc n) (some i) chain ids m w = elim (Bool-cases (any (λ v. v == i) chain)) [
    | inl t ↦ absurd (ground arith)
    | inr t ↦ elim (Option-cases (find_evidence codec i rows)) [
      | inl e ↦ absurd (ground arith)
      | inr (r, e) ↦
          rw (any-append_one i row.id chain t (other_id i r m e), find-kept i r e, walk_chain)
            (walk-extended n r.prev_evidence_id (i ∷ chain) ids m (rw (t, e, walk_chain) at w))
    ]
  ]

  collect-extended :
      (ids : List ℕ) (chunks all : List (List ℕ))
      → find_evidence codec row.id rows ≡ none
      → collect_chunks codec rows ids chunks ≡ ok all
      → collect_chunks codec (rows ++ row ∷ []) (ids ++ row.id ∷ []) chunks
        ≡ ok (add_chunk all (codec.decompress row.content_blob))
  unfolding collect_chunks
  collect-extended [] chunks all m c =
      let same : chunks ≡ all = ground arith in
      rw (find-appended m, collect_chunks)
        (ap (λ a. ok (add_chunk a (codec.decompress row.content_blob))) same)
  collect-extended (i ∷ ids) chunks all m c = elim (Option-cases (find_evidence codec i rows)) [
    | inl e ↦ absurd (ground arith)
    | inr (r, e) ↦
        rw (find-kept i r e, collect_chunks)
          (collect-extended ids (add_chunk chunks (codec.decompress r.content_blob)) all m
            (rw (e, collect_chunks) at c))
  ]

  abbrev appended : ℕ → Archive Blob
  appended next = record { rows = rows ++ row ∷ []; next_id = next }

  one_round_more : length (rows ++ row ∷ []) + 1 ≡ suc (length rows + 1)
  one_round_more = ap (λ n. n + 1) (length_one_more row rows) ∙ omega arith

  walk-appended :
      (ids : List ℕ)
      → find_evidence codec row.id rows ≡ none
      → walk_chain codec rows (length rows + 1) row.prev_evidence_id [] ≡ ok ids
      → walk_chain codec (rows ++ row ∷ []) (length (rows ++ row ∷ []) + 1) (some row.id) []
        ≡ ok (ids ++ row.id ∷ [])
  walk-appended ids m w = rw one_round_more (
      unfold walk_chain any in
      rw (find-appended m, walk_chain)
        (walk-extended (length rows + 1) row.prev_evidence_id [] ids m w))

  -- a chunk behind a chain that is read as `text`
  pub load-chained :
      (now next i : ℕ) (text : List ℕ)
      → find_evidence codec row.id rows ≡ none
      → row.prev_evidence_id ≡ some i
      → load_full_transcript codec (record { rows = rows; next_id = now }) i ≡ ok text
      → (text' : List ℕ) × (load_full_transcript codec (appended next) row.id ≡ ok text')
        × (lines_of text' ≡ lines_of text ++ lines_of (codec.decompress row.content_blob))
  unfolding load_full_transcript
  load-chained now next i text m prev loaded =
      let (ids, w, rest) =
        >>=-eq-ok (walk_chain codec rows (length rows + 1) (some i) []) _ loaded in
      let (chunks, c, done) = >>=-eq-ok (collect_chunks codec rows ids []) _ rest in
      let walked = walk-appended ids m (rw prev w) in
      let read = collect-extended ids [] chunks m c in
      let whole : join_chunks chunks ≡ text = ground arith in
      (
        join_chunks (add_chunk chunks (codec.decompress row.content_blob)),
        rw (walked, read) refl,
        lines-add_chunk chunks (codec.decompress row.content_blob)
            ∙ ap (λ x. lines_of x ++ lines_of (codec.decompress row.content_blob)) whole,
      )

  -- a chunk that begins a chain
  pub load-root :
      (next : ℕ)
      → find_evidence codec row.id rows ≡ none
      → row.prev_evidence_id ≡ none
      → load_full_transcript codec (appended next) row.id ≡ ok (codec.decompress row.content_blob)
  unfolding load_full_transcript
  load-root next m prev =
      let walked = walk-appended [] m (unfold walk_chain in rw prev refl) in
      let read = collect-extended [] [] [] m (unfold collect_chunks in refl) in
      rw (walked, read) (unfold add_chunk join_chunks in refl)
