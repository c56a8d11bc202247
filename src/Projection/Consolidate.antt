-- ===== src/Projection/Consolidate.antt =====
-- storage/consolidate.py: one record for each decision key.
use cognikernel.Prelude.{
  ℕ, zero, suc, ◌+◌, String, Bool, true, false, not, ◌&&◌, ◌||◌, Option, none, some, List, [], ◌∷◌,
  ◌++◌, ltb, ◌==◌, if◌then◌else◌, str_eq, codes, any, select, sort_down, same_text, split, take,
  length, Unicode,
}
use cognikernel.Events.Row.{EventType, Payload, Floats}
use cognikernel.Merge.Supersede.{authority_precedence}
use cognikernel.Overlap.{Ratio, at_least, jaccard_similarity}

-- A record of a projection. The last two are keys that the consolidation adds to the payload.
pub record Rec (W : Type 0) : Type 0 where
  pub id : ℕ
  pub event_type : EventType
  pub weight : W
  pub mention_count : ℕ
  pub session_id : String
  pub content_hash : String
  pub payload : Payload
  pub created_at : ℕ
  pub decision_key : Option String
  pub provenance_count : Option ℕ
  pub lineage : List (List ℕ × String)

-- _SINGLE_TOKEN_JACCARD_FLOOR
abbrev pub single_token_jaccard_floor : Ratio
single_token_jaccard_floor = record { num = 3; den = 10 }

abbrev pub lineage_jaccard : Ratio
lineage_jaccard = record { num = 17; den = 20 }

-- _LINEAGE_MAX
unfoldable pub lineage_max : ℕ
lineage_max = 2

-- rec.get("decision_key") or ""
unfoldable pub key_of : Option String → String
key_of none = ""
key_of (some key) = key

-- " ".join(words)
unfoldable pub join_words : List (List ℕ) → List ℕ
join_words [] = []
join_words (w ∷ []) = w
join_words (w ∷ v ∷ ws) = w ++ 32 ∷ join_words (v ∷ ws)

module _ {W : Type 0} where
  -- by_key.setdefault(key, []).append(rec), over the keys in the order of their first record
  unfoldable pub add_to_key :
      String → Rec W → List (String × List (Rec W)) → List (String × List (Rec W))
  add_to_key key rec [] = (key, rec ∷ []) ∷ []
  add_to_key key rec ((k, group) ∷ groups) =
      let rest = add_to_key key rec groups in
      if str_eq k key then ((k, group ++ rec ∷ []) ∷ groups) else ((k, group) ∷ rest)

  -- the records without a key, and the groups, after the first loop
  unfoldable pub group_by_key :
      List (Rec W)
      → List (Rec W) × List (String × List (Rec W))
      → List (Rec W) × List (String × List (Rec W))
  unfolding add_to_key key_of
  group_by_key [] (out, groups) = (out, groups)
  group_by_key (rec ∷ recs) (out, groups) =
      let key = key_of rec.decision_key in
      group_by_key recs
        (if str_eq key "" then (out ++ rec ∷ [], groups) else (out, add_to_key key rec groups))

  -- the order of (authority, created_at, id)
  unfoldable pub ranks_below : Rec W → Rec W → Bool
  unfolding authority_precedence
  ranks_below a b =
      let x = authority_precedence a.payload.authority in
      let y = authority_precedence b.payload.authority in
      ltb x y
      || (x == y
          && (ltb a.created_at b.created_at || (a.created_at == b.created_at && ltb a.id b.id)))

  unfoldable pub mentions : List (Rec W) → ℕ
  mentions [] = 0
  mentions (r ∷ recs) = r.mention_count + mentions recs

  -- max(weights)
  unfoldable pub top_weight : Floats W → W → List (Rec W) → W
  top_weight f w [] = w
  top_weight f w (r ∷ recs) = top_weight f (f.max w r.weight) recs

module _ {W : Type 0} (f : Floats W) (u : Unicode) where
  unfoldable pub norm_desc : Rec W → List ℕ
  unfolding join_words
  norm_desc r = join_words (split (u.lower (codes r.payload.description)))

  unfoldable pub repeats : List ℕ → List (List ℕ) → Bool
  repeats d accepted =
      any (λ a. same_text d a || at_least lineage_jaccard (jaccard_similarity u d a)) accepted

  -- the loop over the older records: the lineage, which has `room` entries left
  unfoldable pub lineage_of : List (Rec W) → List (List ℕ) → ℕ → List (List ℕ × String)
  unfolding norm_desc repeats
  lineage_of [] accepted room = []
  lineage_of (r ∷ recs) accepted room =
      let d = norm_desc r in
      elim (repeats d accepted) [
        | true ↦ lineage_of recs accepted room
        | false ↦ elim room [
          | zero ↦ lineage_of recs accepted zero
          | suc left ↦
              (take 80 (codes r.payload.description), r.session_id)
              ∷ lineage_of recs (accepted ++ d ∷ []) left
        ]
      ]

  -- an empty lineage leaves the payload as it is
  unfoldable pub new_lineage : Rec W → List (Rec W) → List (List ℕ × String)
  unfolding lineage_of lineage_max
  new_lineage head rest = elim (lineage_of rest (norm_desc head ∷ []) lineage_max) [
    | [] ↦ head.lineage
    | entry ∷ entries ↦ entry ∷ entries
  ]

  -- the record for a group of at least two, whose first has the highest rank
  unfoldable pub canonical_of : Rec W → List (Rec W) → Rec W
  unfolding new_lineage mentions top_weight
  canonical_of head rest = record head {
    mention_count = mentions (head ∷ rest);
    weight = top_weight f head.weight rest;
    provenance_count = some (length (head ∷ rest));
    lineage = new_lineage head rest;
  }

  -- the rank order, highest first
  abbrev pub ranked : List (Rec W) → List (Rec W)
  ranked = sort_down ranks_below

  unfoldable pub merge_ranked : List (Rec W) → List (Rec W)
  unfolding canonical_of
  merge_ranked [] = []
  merge_ranked (r ∷ []) = r ∷ []
  merge_ranked (head ∷ r ∷ rest) = canonical_of head (r ∷ rest) ∷ []

  unfoldable pub is_related : Rec W → Rec W → Bool
  unfolding norm_desc
  is_related head r =
      at_least single_token_jaccard_floor (jaccard_similarity u (norm_desc head) (norm_desc r))

  -- a ranked group of a key of one word, where a shared key is not enough: the records that are not
  -- like the highest stand for themselves
  unfoldable pub split_ranked : List (Rec W) → List (Rec W)
  unfolding is_related
  split_ranked [] = []
  split_ranked (head ∷ rest) =
      select (λ r. not (is_related head r)) rest
      ++ merge_ranked (ranked (head ∷ select (is_related head) rest))

  unfoldable pub consolidate_group : String → List (Rec W) → List (Rec W)
  unfolding merge_ranked split_ranked
  consolidate_group key [] = []
  consolidate_group key (r ∷ []) = r ∷ []
  consolidate_group key (r ∷ s ∷ group) =
      if any (λ c. c == 32) (codes key)
      then merge_ranked (ranked (r ∷ s ∷ group))
      else (split_ranked (ranked (r ∷ s ∷ group)))

  unfoldable pub consolidate_groups : List (String × List (Rec W)) → List (Rec W)
  unfolding consolidate_group
  consolidate_groups [] = []
  consolidate_groups ((key, group) ∷ groups) =
      consolidate_group key group ++ consolidate_groups groups

  unfoldable pub consolidate_by_key : List (Rec W) → List (Rec W)
  unfolding consolidate_groups group_by_key
  consolidate_by_key recs =
      let (out, groups) = group_by_key recs ([], []) in out ++ consolidate_groups groups
