-- ===== src/Merge/Stored.antt =====
-- delta/merge.py: a stored event is linked to its evidence.
use cognikernel.Prelude.{
  ℕ, ◌≡◌, refl, subst, ◌∙◌, Bool, false, Option, some, [], ok, arith, update_where, Bool-cases,
  Option-cases, inl, inr, >>=-eq-ok,
}
use cognikernel.Events.Row.{Event, EventStore, component_status, same_type}
use cognikernel.Merge.World.{World}
use cognikernel.Merge.Gate.{GroundingContext}
use cognikernel.Merge.Ingest.{
  by_id, Outcome, link_if_evidence, insert_or_bump, restated_row, insert_or_update, bump_event,
  find_echo,
}
use cognikernel.Merge.Cascade.{cascade_component_status}
use cognikernel.Merge.Supersede.{find_superseded, group_by_reason, apply_groups, cross_type_dedup}
use cognikernel.Merge.Run.{Stats, settle, store_event}
use cognikernel.Merge.Untouched.{
  apply_groups-provenance, cross_type_dedup-provenance, insert_or_bump-provenance,
}
use cognikernel.Merge.Linked.{
  IsLinked, Extends, Extends-trans, Extends-same, link_if-IsLinked, cascade-Extends,
}

module _ {W : Type 0} (w : World W) (embed_events use_cross_encoder : Bool)
    (ground_context : Option GroundingContext) (now : ℕ) where
  pub settle-Extends :
      (e : Event W) (id : ℕ) (st : Stats) (s s' : EventStore W) (st' : Stats)
      → settle w embed_events use_cross_encoder ground_context now e id st s ≡ ok (s', st')
      → Extends s s'
  unfolding settle
  settle-Extends e id st s s' st' h =
      let groups = group_by_reason (find_superseded w embed_events use_cross_encoder e s) [] in
      let s1 = (apply_groups w now id groups 0 s).0 in
      let s2 = (cross_type_dedup w now id e s1).0 in
      let kept : Extends s s2 =
        Extends-same s s2 (
          cross_type_dedup-provenance w now id e s1
          ∙ apply_groups-provenance w now id groups 0 s) in
      elim (Bool-cases (same_type e.event_type component_status)) as (λ x. Extends s s') [
        | inr t ↦ subst (λ u. Extends s u) (ground arith) kept
        | inl t ↦
            let ((s3, c), ran, done) =
              >>=-eq-ok (cascade_component_status w now id e s2) _ (rw (t, settle) at h) in
            Extends-trans kept
              (subst (λ u. Extends s2 u) (ground arith) (cascade-Extends w now id e s2 s3 c ran))
      ]

  insert-IsLinked :
      (e : Event W) (i : ℕ) (s s' : EventStore W) (o : Outcome) (id : ℕ)
      → e.evidence_id ≡ some i
      → insert_or_update w e s ≡ ok (s', o, id)
      → IsLinked i s' × Extends s s'
  unfolding insert_or_update
  insert-IsLinked e i s s' o id from h =
      let ((t, k), wrote, rest) =
        >>=-eq-ok (insert_or_bump (λ r. record (restated_row w e r) { archived = false }) e s) _
          h in
      let (u, linked, done) = >>=-eq-ok (link_if_evidence k e.evidence_id t) _ rest in
      let (new, keeps) = link_if-IsLinked k i e.evidence_id t u from linked in
      let q : u ≡ s' = ground arith in
      (
        subst (λ x. IsLinked i x) q new,
        Extends-trans (Extends-same s t (insert_or_bump-provenance _ e s t k wrote))
            (subst (λ x. Extends t x) q keeps),
      )

  bump-IsLinked :
      (e : Event W) (i echo : ℕ) (s s' : EventStore W)
      → e.evidence_id ≡ some i
      → bump_event w echo e s ≡ ok s'
      → IsLinked i s' × Extends s s'
  unfolding bump_event
  bump-IsLinked e i echo s s' from h =
      let t : EventStore W = record s {
        events = update_where (by_id echo) (restated_row w e) s.events;
      } in
      let (new, keeps) = link_if-IsLinked echo i e.evidence_id t s' from h in
      (new, Extends-trans (Extends-same s t refl) keeps)

  pub store-IsLinked :
      (e : Event W) (i : ℕ) (st : Stats) (s s' : EventStore W) (st' : Stats)
      → e.evidence_id ≡ some i
      → store_event w embed_events use_cross_encoder ground_context now e st s ≡ ok (s', st')
      → IsLinked i s' × Extends s s'
  unfolding store_event
  store-IsLinked e i st s s' st' from h =
      elim (Option-cases (find_echo w e s)) as (λ x. IsLinked i s' × Extends s s') [
        | inl q ↦
            let (t, wrote, done) =
              >>=-eq-ok (insert_or_update w e s) _ (rw (q, store_event) at h) in
            let (new, keeps) = insert-IsLinked e i s t.0 t.1 t.2 from wrote in
            let settled = settle-Extends e t.2 _ t.0 s' st' done in
            (settled.at i new, Extends-trans keeps settled)
        | inr (echo, q) ↦
            let (t, bumped, done) =
              >>=-eq-ok (bump_event w echo e s) _ (rw (q, store_event) at h) in
            subst (λ x. IsLinked i x × Extends s x) (ground arith)
              (bump-IsLinked e i echo s t from bumped)
      ]
