-- ===== src/Merge/Between.antt =====
-- delta/merge.py: a merge loses no provenance link, however it ends.
use cognikernel.Prelude.{
  ℕ, ◌≡◌, refl, subst, str_eq, String, Bool, false, Option, none, some, List, [], ◌∷◌, Result, ok,
  err, arith, update_where, Bool-cases, Option-cases, inl, inr, >>=-eq-ok,
}
use cognikernel.Events.Row.{Event, EventStore}
use cognikernel.Merge.World.{World}
use cognikernel.Merge.Gate.{GroundingContext, admit, apply_verdict}
use cognikernel.Merge.Ingest.{
  by_id, Outcome, link_if_evidence, insert_or_bump, restated_row, insert_or_update, bump_event,
  find_echo,
}
use cognikernel.Merge.Decay.{apply_decay_inner, decay_pass}
use cognikernel.Merge.Run.{
  Stats, no_stats, Txn, Progress, going, failed, record_verdict, record_rule, is_merged,
  invalidate_projection, insert_extraction_failure, store_event, with_key, is_reject,
  merge_candidate, merge_loop, merge_end, execute_merge,
}
use cognikernel.Merge.Untouched.{insert_or_bump-provenance}
use cognikernel.Merge.Linked.{Extends, Extends-refl, Extends-trans, Extends-same, link_if-IsLinked}
use cognikernel.Merge.Stored.{settle-Extends}

link_if-Extends :
    {W : Type 0} (event_id : ℕ) (evidence : Option ℕ) (s s' : EventStore W)
    → link_if_evidence event_id evidence s ≡ ok s'
    → Extends s s'
link_if-Extends event_id none s s' h = Extends-same s s' (unfold link_if_evidence in ground arith)
link_if-Extends event_id (some i) s s' h = (link_if-IsLinked event_id i (some i) s s' refl h).1

module _ {W : Type 0} (w : World W) (embed_events use_cross_encoder : Bool)
    (ground_context : Option GroundingContext) (now : ℕ) where
  insert-Extends :
      (e : Event W) (s s' : EventStore W) (o : Outcome) (id : ℕ)
      → insert_or_update w e s ≡ ok (s', o, id)
      → Extends s s'
  unfolding insert_or_update
  insert-Extends e s s' o id h =
      let ((t, k), wrote, rest) =
        >>=-eq-ok (insert_or_bump (λ r. record (restated_row w e r) { archived = false }) e s) _
          h in
      let (u, linked, done) = >>=-eq-ok (link_if_evidence k e.evidence_id t) _ rest in
      let q : u ≡ s' = ground arith in
      Extends-trans (Extends-same s t (insert_or_bump-provenance _ e s t k wrote))
        (subst (λ x. Extends t x) q (link_if-Extends k e.evidence_id t u linked))

  bump-Extends :
      (e : Event W) (echo : ℕ) (s s' : EventStore W) → bump_event w echo e s ≡ ok s' → Extends s s'
  unfolding bump_event
  bump-Extends e echo s s' h =
      let t : EventStore W = record s {
        events = update_where (by_id echo) (restated_row w e) s.events;
      } in
      Extends-trans (Extends-same s t refl) (link_if-Extends echo e.evidence_id t s' h)

  store-Extends :
      (e : Event W) (st : Stats) (s s' : EventStore W) (st' : Stats)
      → store_event w embed_events use_cross_encoder ground_context now e st s ≡ ok (s', st')
      → Extends s s'
  unfolding store_event
  store-Extends e st s s' st' h = elim (Option-cases (find_echo w e s)) as (λ x. Extends s s') [
    | inl q ↦
        let (t, wrote, done) = >>=-eq-ok (insert_or_update w e s) _ (rw (q, store_event) at h) in
        Extends-trans (insert-Extends e s t.0 t.1 t.2 wrote) (
          settle-Extends w embed_events use_cross_encoder ground_context now e t.2 _ t.0 s' st'
            done)
    | inr (echo, q) ↦
        let (t, bumped, done) = >>=-eq-ok (bump_event w echo e s) _ (rw (q, store_event) at h) in
        subst (λ x. Extends s x) (ground arith) (bump-Extends e echo s t bumped)
  ]

  -- both stores of the transaction have the links of `s`
  module _ (s : EventStore W) where
    abbrev Keeping : Txn W → Type 0
    Keeping t = Extends s t.durable × Extends s t.current

    abbrev InProgress : Progress W → Type 0
    InProgress (going t st) = Keeping t
    InProgress (failed t) = Keeping t

    record_rule-Keeping :
        (e : Event W) (rule : Option String) (t : Txn W)
        → Keeping t
        → Keeping (record_rule e rule t)
    unfolding record_rule record_verdict
    record_rule-Keeping e none t h = h
    record_rule-Keeping e (some rule) t h = elim (Bool-cases (str_eq rule "")) [
      | inl b ↦ rw b h
      | inr b ↦ let same = Extends-trans h.1 (Extends-same t.current _ refl) in rw b (same, same)
    ]

    candidate-Keeping :
        (e : Event W) (t : Txn W) (st : Stats)
        → Keeping t
        → InProgress (merge_candidate w embed_events use_cross_encoder ground_context now e t st)
    unfolding merge_candidate
    candidate-Keeping e t st h =
        let v = admit w e ground_context in
        let t' = record_rule e v.rule_id t in
        let judged =
          with_key w embed_events use_cross_encoder ground_context now (apply_verdict w e v) in
        let recorded = record_rule-Keeping e v.rule_id t h in
        elim (Bool-cases (is_reject v.action)) [
          | inl b ↦ rw b recorded
          | inr b ↦ rw b (
              go t' recorded judged
                (store_event w embed_events use_cross_encoder ground_context now judged st
                  t'.current)
                refl)
        ]
      where
        go :
            (t' : Txn W)
            → Keeping t'
            → (judged : Event W) (r : Result (EventStore W × Stats))
            → store_event w embed_events use_cross_encoder ground_context now judged st t'.current
              ≡ r
            → InProgress (elim r as (λ _. Progress W) [
              | ok (s', st') ↦ going (record t' { current = s' }) st'
              | err _ ↦ failed t'
            ])
        go t' k judged (ok (s', st')) q =
            (k.0, Extends-trans k.1 (store-Extends judged st t'.current s' st' q))
        go t' k judged (err x) q = k

    loop-Keeping :
        (es : List (Event W)) (t : Txn W) (st : Stats)
        → Keeping t
        → InProgress (merge_loop w embed_events use_cross_encoder ground_context now es t st)
    unfolding merge_loop
    loop-Keeping [] t st h = h
    loop-Keeping (e ∷ es) t st h =
        go (λ u n k. loop-Keeping es u n k)
          (merge_candidate w embed_events use_cross_encoder ground_context now e t st)
          (candidate-Keeping e t st h)
      where
        go :
            ((u : Txn W) (n : Stats)
              → Keeping u
              → InProgress (merge_loop w embed_events use_cross_encoder ground_context now es u n))
            → (p : Progress W) → InProgress p
            → InProgress (elim p as (λ _. Progress W) [
              | going u n ↦ merge_loop w embed_events use_cross_encoder ground_context now es u n
              | failed u ↦ failed u
            ])
        go rest (going u n) k = rest u n k
        go rest (failed u) k = k

    end-Extends :
        (project session : String) (p : Progress W)
        → InProgress p
        → Extends s
            (merge_end w embed_events use_cross_encoder ground_context now project session p).0
    unfolding merge_end invalidate_projection insert_extraction_failure apply_decay_inner decay_pass
    end-Extends project session (going t st) k =
        Extends-trans k.1 (Extends-same t.current _ (ground arith))
    end-Extends project session (failed t) k = Extends-trans k.0 (Extends-same t.durable _ refl)

  -- A merge loses no link, whether it returns or raises.
  pub execute_merge-Extends :
      (session : String) (es : List (Event W)) (s : EventStore W)
      → Extends s (execute_merge w embed_events use_cross_encoder ground_context now session es s).0
  unfolding execute_merge
  execute_merge-Extends session [] s = Extends-refl s
  execute_merge-Extends session (e ∷ es) s = elim (Bool-cases (is_merged e.evidence_id s)) [
    | inl t ↦ rw t (Extends-refl s)
    | inr t ↦ rw t (
        end-Extends s e.project_id session _ (
          loop-Keeping s (e ∷ es) (record { durable = s; current = s }) no_stats
            (Extends-refl s, Extends-refl s)))
  ]

-- A course of merges, each of any candidates, in any session, at any time and with any settings and
-- grounding; a merge of it may raise.
pub data MergesTo {W : Type 0} (w : World W) (s : EventStore W) : EventStore W → Type 0 where
  no_merge : MergesTo w s s
  then_merge :
      {t : EventStore W} (embed_events use_cross_encoder : Bool)
      (ground_context : Option GroundingContext) (now : ℕ) (session : String) (es : List (Event W))
      → MergesTo w s t
      → MergesTo w s
          (execute_merge w embed_events use_cross_encoder ground_context now session es t).0

pub MergesTo-Extends :
    {W : Type 0} (w : World W) (s t : EventStore W) → MergesTo w s t → Extends s t
MergesTo-Extends w s t no_merge = Extends-refl s
MergesTo-Extends w s t (then_merge {t = u} a b g now session es run) =
    Extends-trans (MergesTo-Extends w s u run) (execute_merge-Extends w a b g now session es u)
