-- ===== src/Projection/Mentions.antt =====
-- storage/consolidate.py: the consolidation loses no mention.
use cognikernel.Prelude.{
  ℕ, ◌+◌, ◌≡◌, refl, ap, ◌∙◌, String, Bool, not, List, [], ◌∷◌, ◌++◌, arith, ◌==◌, str_eq, codes,
  any, Bool-cases, inl, inr, select, insert_sorted, sort_down, Unicode,
}
use cognikernel.Events.Row.{Floats}
use cognikernel.Projection.Consolidate.{
  Rec, mentions, key_of, add_to_key, group_by_key, ranks_below, ranked, canonical_of, merge_ranked,
  is_related, split_ranked, consolidate_group, consolidate_groups, consolidate_by_key,
}

module _ {W : Type 0} where
  mentions-append : (a b : List (Rec W)) → mentions (a ++ b) ≡ mentions a + mentions b
  unfolding mentions
  mentions-append [] b = omega arith
  mentions-append (r ∷ a) b = omega (arith, mentions-append a b)

  mentions-insert :
      (less : Rec W → Rec W → Bool) (r : Rec W) (recs : List (Rec W))
      → mentions (insert_sorted less r recs) ≡ r.mention_count + mentions recs
  unfolding mentions insert_sorted
  mentions-insert less r [] = refl
  mentions-insert less r (s ∷ recs) = ground (arith, mentions-insert less r recs)

  -- sorting
  mentions-sort :
      (less : Rec W → Rec W → Bool) (recs : List (Rec W))
      → mentions (sort_down less recs) ≡ mentions recs
  unfolding mentions sort_down
  mentions-sort less [] = refl
  mentions-sort less (r ∷ recs) =
      mentions-insert less r (sort_down less recs)
      ∙ ap (λ n. r.mention_count + n) (mentions-sort less recs)

  -- splitting by a test
  mentions-select :
      (p : Rec W → Bool) (recs : List (Rec W))
      → mentions (select (λ r. not (p r)) recs) + mentions (select p recs) ≡ mentions recs
  unfolding mentions select
  mentions-select p [] = omega arith
  mentions-select p (r ∷ recs) = ground (arith, mentions-select p recs)

  -- all the groups together
  grouped : List (String × List (Rec W)) → ℕ
  grouped [] = 0
  grouped ((key, group) ∷ groups) = mentions group + grouped groups

  grouped-add :
      (key : String) (r : Rec W) (groups : List (String × List (Rec W)))
      → grouped (add_to_key key r groups) ≡ r.mention_count + grouped groups
  unfolding grouped add_to_key mentions
  grouped-add key r [] = omega arith
  grouped-add key r ((k, group) ∷ groups) = elim (Bool-cases (str_eq k key)) [
    | inl t ↦ rw t (omega (arith, mentions-append group (r ∷ [])))
    | inr t ↦ rw t (omega (arith, grouped-add key r groups))
  ]

  group_by_key-mentions :
      (recs out : List (Rec W)) (groups : List (String × List (Rec W)))
      → let g = group_by_key recs (out, groups) in
        mentions g.0 + grouped g.1 ≡ mentions recs + (mentions out + grouped groups)
  unfolding group_by_key mentions
  group_by_key-mentions [] out groups = omega arith
  group_by_key-mentions (r ∷ recs) out groups =
      elim (Bool-cases (str_eq (key_of r.decision_key) "")) [
        | inl t ↦
            rw (t, group_by_key)
              (omega (
                arith,
                group_by_key-mentions recs (out ++ r ∷ []) groups,
                mentions-append out (r ∷ []),
              ))
        | inr t ↦
            let added = add_to_key (key_of r.decision_key) r groups in
            rw (t, group_by_key)
              (omega (
                arith,
                group_by_key-mentions recs out added,
                grouped-add (key_of r.decision_key) r groups,
              ))
      ]

module _ {W : Type 0} (f : Floats W) (u : Unicode) where
  merge_ranked-mentions : (recs : List (Rec W)) → mentions (merge_ranked f u recs) ≡ mentions recs
  unfolding merge_ranked mentions canonical_of
  merge_ranked-mentions [] = refl
  merge_ranked-mentions (r ∷ []) = refl
  merge_ranked-mentions (r ∷ s ∷ recs) = omega arith

  split_ranked-mentions : (recs : List (Rec W)) → mentions (split_ranked f u recs) ≡ mentions recs
  unfolding split_ranked mentions
  split_ranked-mentions [] = refl
  split_ranked-mentions (head ∷ rest) =
      let like = head ∷ select (is_related f u head) rest in
      let whole =
        mentions-append (select (λ r. not (is_related f u head r)) rest)
          (merge_ranked f u (ranked f u like)) in
      let merged = merge_ranked-mentions (ranked f u like) ∙ mentions-sort ranks_below like in
      let parts = mentions-select (is_related f u head) rest in omega (arith, whole, merged, parts)

  consolidate_group-mentions :
      (key : String) (group : List (Rec W))
      → mentions (consolidate_group f u key group) ≡ mentions group
  unfolding consolidate_group
  consolidate_group-mentions key [] = refl
  consolidate_group-mentions key (r ∷ []) = refl
  consolidate_group-mentions key (r ∷ s ∷ group) =
      let sorted = mentions-sort ranks_below (r ∷ s ∷ group) in
      elim (Bool-cases (any (λ c. c == 32) (codes key))) [
        | inl t ↦ rw t (merge_ranked-mentions (ranked f u (r ∷ s ∷ group)) ∙ sorted)
        | inr t ↦ rw t (split_ranked-mentions (ranked f u (r ∷ s ∷ group)) ∙ sorted)
      ]

  consolidate_groups-mentions :
      (groups : List (String × List (Rec W)))
      → mentions (consolidate_groups f u groups) ≡ grouped groups
  unfolding consolidate_groups grouped
  consolidate_groups-mentions [] = unfold mentions in refl
  consolidate_groups-mentions ((key, group) ∷ groups) =
      mentions-append (consolidate_group f u key group) (consolidate_groups f u groups)
      ∙ rw (consolidate_group-mentions key group, consolidate_groups-mentions groups) refl

  -- The mentions of the records that `consolidate_by_key` returns are together those of the records
  -- that it was given: no mention is lost or counted twice, whatever the keys, the similarities and
  -- the lowering of texts are.
  pub consolidate_by_key-mentions :
      (recs : List (Rec W)) → mentions (consolidate_by_key f u recs) ≡ mentions recs
  unfolding consolidate_by_key
  consolidate_by_key-mentions recs =
      let (out, groups) = group_by_key recs ([], []) in
      let all = group_by_key-mentions recs [] [] in
      mentions-append out (consolidate_groups f u groups)
      ∙ rw (consolidate_groups-mentions groups) (unfold mentions grouped in omega (arith, all))
