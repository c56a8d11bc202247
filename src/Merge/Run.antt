-- ===== src/Merge/Run.antt =====
-- delta/merge.py: `execute_merge`. SQLite keeps a transaction open across the loop, so the state is
-- the store as the connection sees it beside the store as it was last committed.
-- `record_verdict` of storage/quality_telemetry.py commits.
use cognikernel.Prelude.{
  ℕ, ◌+◌, String, Bool, true, false, ◌&&◌, Option, none, some, List, [], ◌∷◌, ◌++◌, Result, ok, err,
  ◌>>=◌, ◌==◌, if◌then◌else◌, str_eq, any, update_where,
}
use cognikernel.Events.Row.{component_status, same_type, Event, Firing, EventStore}
use cognikernel.Merge.World.{World}
use cognikernel.Merge.Gate.{Action, reject, GroundingContext, admit, apply_verdict}
use cognikernel.Merge.Ingest.{Outcome, inserted, updated, insert_or_update, find_echo, bump_event}
use cognikernel.Merge.Decay.{apply_decay_inner}
use cognikernel.Merge.Cascade.{cascade_component_status}
use cognikernel.Merge.Supersede.{find_superseded, group_by_reason, apply_groups, cross_type_dedup}

pub record Stats : Type 0 where
  pub n_inserted : ℕ
  pub n_updated : ℕ
  pub n_superseded : ℕ
  pub n_cascaded : ℕ
  pub n_archived : ℕ
  pub n_rejected : ℕ

abbrev pub no_stats : Stats
no_stats = record {
  n_inserted = 0;
  n_updated = 0;
  n_superseded = 0;
  n_cascaded = 0;
  n_archived = 0;
  n_rejected = 0;
}

pub record Txn (W : Type 0) : Type 0 where
  pub durable : EventStore W
  pub current : EventStore W

pub data Progress (W : Type 0) : Type 0 where
  going : Txn W → Stats → Progress W
  failed : Txn W → Progress W

unfoldable pub is_firing : String → String → String → Firing → Bool
is_firing project session rule f =
    str_eq f.project_id project && str_eq f.session_id session && str_eq f.rule_id rule

unfoldable pub fire : String → String → String → List Firing → List Firing
unfolding is_firing
fire project session rule rows =
    if any (is_firing project session rule) rows
    then update_where (is_firing project session rule) (λ f. record f { count = f.count + 1 }) rows
    else rows
      ++ record { project_id = project; session_id = session; rule_id = rule; count = 1 } ∷ []

abbrev count_outcome : Outcome → Stats → Stats
count_outcome inserted st = record st { n_inserted = st.n_inserted + 1 }
count_outcome updated st = record st { n_updated = st.n_updated + 1 }

unfoldable pub is_reject : Action → Bool
is_reject reject = true
is_reject _ = false

module _ {W : Type 0} where
  -- INSERT … ON CONFLICT, and commit
  unfoldable pub record_verdict : String → String → String → Txn W → Txn W
  unfolding fire
  record_verdict project session rule t =
      let s = t.current in
      let s' : EventStore W = record s { verdicts = fire project session rule s.verdicts } in
      if str_eq rule "" then t else record { durable = s'; current = s' }

  unfoldable pub record_rule : Event W → Option String → Txn W → Txn W
  unfolding record_verdict
  record_rule e none t = t
  record_rule e (some rule) t = record_verdict e.project_id e.session_id rule t

  unfoldable pub evidence_already_merged : ℕ → EventStore W → Bool
  evidence_already_merged i s = any (λ p. p.raw_evidence_id == i) s.provenance

  unfoldable pub is_merged : Option ℕ → EventStore W → Bool
  unfolding evidence_already_merged
  is_merged none s = false
  is_merged (some i) s = evidence_already_merged i s

  -- event_id_high_water = -1
  unfoldable pub invalidate_projection : String → EventStore W → EventStore W
  invalidate_projection project s = record s {
    projections = update_where (λ p. str_eq p.0 project) (λ p. (p.0, none)) s.projections;
  }

  unfoldable pub insert_extraction_failure : String → String → EventStore W → EventStore W
  insert_extraction_failure project session s = record s {
    failures =
        s.failures
        ++ record { project_id = project; session_id = session; stage = "delta.merge" } ∷ [];
  }

module _ {W : Type 0} (w : World W) (embed_events use_cross_encoder : Bool)
    (ground_context : Option GroundingContext) (now : ℕ) where
  unfoldable pub with_key : Event W → Event W
  with_key e = elim e.decision_key [
    | some _ ↦ e
    | none ↦ record e { decision_key = some (w.derive_decision_key e.payload e.event_type) }
  ]

  -- the supersession and cascade steps, for an event that has its row
  unfoldable pub settle : Event W → ℕ → Stats → EventStore W → Result (EventStore W × Stats)
  settle e id st s =
      let groups = group_by_reason (find_superseded w embed_events use_cross_encoder e s) [] in
      let (s1, n) = apply_groups w now id groups 0 s in
      let (s2, m) = cross_type_dedup w now id e s1 in
      let st' : Stats = record st { n_superseded = st.n_superseded + n + m } in
      if same_type e.event_type component_status
      then (do
        (s3, c) ← cascade_component_status w now id e s2
        ok (s3, record st' { n_cascaded = st'.n_cascaded + c }))
      else ok (s2, st')

  -- the rest of a round, for an event that the gate lets through
  unfoldable pub store_event : Event W → Stats → EventStore W → Result (EventStore W × Stats)
  unfolding settle
  store_event e st s = elim (find_echo w e s) [
    | some echo_id ↦ do
      s' ← bump_event w echo_id e s
      ok (s', record st { n_updated = st.n_updated + 1 })
    | none ↦ do
      (s', outcome, id) ← insert_or_update w e s
      settle e id (count_outcome outcome st) s'
  ]

  -- one round of the loop over the candidates
  unfoldable pub merge_candidate : Event W → Txn W → Stats → Progress W
  unfolding is_reject
  merge_candidate e t st =
      let v = admit w e ground_context in
      let t' = record_rule e v.rule_id t in
      if is_reject v.action
      then going t' (record st { n_rejected = st.n_rejected + 1 })
      else (elim (store_event (with_key (apply_verdict w e v)) st t'.current) [
        | ok (s', st') ↦ going (record t' { current = s' }) st'
        | err _ ↦ failed t'
      ])

  unfoldable pub merge_loop : List (Event W) → Txn W → Stats → Progress W
  unfolding merge_candidate
  merge_loop [] t st = going t st
  merge_loop (e ∷ es) t st = elim (merge_candidate e t st) [
    | going t' st' ↦ merge_loop es t' st'
    | failed t' ↦ failed t'
  ]

  -- what follows the loop in the transaction, and its commit or rollback
  unfoldable pub merge_end : String → String → Progress W → EventStore W × Option Stats
  merge_end project session (going t st) =
      let (s, n) = apply_decay_inner w.floats project session t.current in
      (invalidate_projection project s, some (record st { n_archived = st.n_archived + n }))
  merge_end project session (failed t) = (insert_extraction_failure project session t.durable, none)

  -- the store afterwards, and the statistics; `none` where the call raised
  unfoldable pub execute_merge :
      String → List (Event W) → EventStore W → EventStore W × Option Stats
  execute_merge session [] s = (s, some no_stats)
  execute_merge session (e ∷ es) s =
      if is_merged e.evidence_id s
      then (s, some no_stats)
      else merge_end e.project_id session
          (merge_loop (e ∷ es) (record { durable = s; current = s }) no_stats)
