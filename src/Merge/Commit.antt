-- ===== src/Merge/Commit.antt =====
-- delta/merge.py: what is durable when a merge fails or its process dies, and what a replay of the
-- same evidence does.
use cognikernel.Prelude.{
  ℕ, ◌≡◌, refl, ap, sym, ◌∙◌, String, Bool, true, false, Option, none, some, List, [], ◌∷◌, arith,
  str_eq, All, Bool-cases, inl, inr,
}
use cognikernel.Events.Row.{Event, EventStore}
use cognikernel.Merge.World.{World}
use cognikernel.Merge.Gate.{GroundingContext, admit}
use cognikernel.Merge.Run.{
  Stats, no_stats, Txn, Progress, going, failed, record_verdict, record_rule, is_merged,
  insert_extraction_failure, merge_candidate, merge_loop, merge_end, execute_merge,
}

abbrev pub durable_of : {W : Type 0} → Progress W → EventStore W
durable_of (going t st) = t.durable
durable_of (failed t) = t.durable

module _ {W : Type 0} (w : World W) (embed_events use_cross_encoder : Bool)
    (ground_context : Option GroundingContext) (now : ℕ) where
  abbrev step : Event W → Txn W → Stats → Progress W
  step = merge_candidate w embed_events use_cross_encoder ground_context now

  -- the gate has nothing to report of the event
  abbrev pub IsQuiet : Event W → Type 0
  IsQuiet e = (admit w e ground_context).rule_id ≡ none

  step-durable :
      (e : Event W) (t : Txn W) (st : Stats)
      → durable_of (step e t st) ≡ (record_rule e (admit w e ground_context).rule_id t).durable
  unfolding merge_candidate
  step-durable e t st = ground arith

  record_rule-quiet :
      (e : Event W) (t : Txn W) → IsQuiet e → record_rule e (admit w e ground_context).rule_id t ≡ t
  unfolding record_rule
  record_rule-quiet e t q = rw (q, record_rule)

  after_step :
      (es : List (Event W)) (d : EventStore W) (p : Progress W)
      → ((t : Txn W) (st : Stats)
          → durable_of (merge_loop w embed_events use_cross_encoder ground_context now es t st)
            ≡ t.durable)
      → durable_of p ≡ d
      → durable_of (elim p [
        | going t' st' ↦ merge_loop w embed_events use_cross_encoder ground_context now es t' st'
        | failed t' ↦ failed t'
      ])
        ≡ d
  after_step es d (going t' st') ih e = ih t' st' ∙ e
  after_step es d (failed t') ih e = e

  -- While the gate reports nothing of the candidates, no round of the merge's loop makes anything
  -- durable: a process that dies in the loop, or whose merge raises there, leaves the store that was
  -- committed before it.
  pub merge_loop-durable :
      (es : List (Event W)) (t : Txn W) (st : Stats)
      → All IsQuiet es
      → durable_of (merge_loop w embed_events use_cross_encoder ground_context now es t st)
        ≡ t.durable
  unfolding merge_loop
  merge_loop-durable [] t st q = refl
  merge_loop-durable (e ∷ es) t st q =
      after_step es t.durable (step e t st) (λ t' st'. merge_loop-durable es t' st' q.1)
        (step-durable e t st ∙ ap (λ (x : Txn W). x.durable) (record_rule-quiet e t q.0))

  abbrev execute : String → List (Event W) → EventStore W → EventStore W × Option Stats
  execute = execute_merge w embed_events use_cross_encoder ground_context now

  merge_end-failed :
      (project session : String) (p : Progress W)
      → (merge_end w embed_events use_cross_encoder ground_context now project session p).1 ≡ none
      → (merge_end w embed_events use_cross_encoder ground_context now project session p).0
        ≡ insert_extraction_failure project session (durable_of p)
  unfolding merge_end
  merge_end-failed project session (going t st) h = cc
  merge_end-failed project session (failed t) h = refl

  merged_by_provenance :
      (i : ℕ) (s s' : EventStore W)
      → s'.provenance ≡ s.provenance
      → is_merged (some i) s ≡ true
      → is_merged (some i) s' ≡ true
  unfolding is_merged
  merged_by_provenance i s s' same m = rw same m

  -- A merge of candidates of which the gate reports nothing is atomic: if the call raises, whatever
  -- its rounds did before, it leaves the store as it was but for a row in the failure queue.
  pub execute_merge-atomic :
      (session : String) (e : Event W) (es : List (Event W)) (s s' : EventStore W)
      → All IsQuiet (e ∷ es)
      → execute session (e ∷ es) s ≡ (s', none)
      → s' ≡ insert_extraction_failure e.project_id session s
  unfolding execute_merge
  execute_merge-atomic session e es s s' q h = elim (Bool-cases (is_merged e.evidence_id s)) [
    | inl t ↦ absurd (ground arith)
    | inr t ↦
        let p =
          merge_loop w embed_events use_cross_encoder ground_context now (e ∷ es)
            (record { durable = s; current = s }) no_stats in
        let ended : merge_end w embed_events use_cross_encoder ground_context now e.project_id
              session p
            ≡ (s', none) =
          rw (t, execute_merge) at h in
        sym (ap (λ (x : EventStore W × Option Stats). x.0) ended)
        ∙ merge_end-failed e.project_id session p
            (ap (λ (x : EventStore W × Option Stats). x.1) ended)
        ∙ ap (insert_extraction_failure e.project_id session)
            (merge_loop-durable (e ∷ es) (record { durable = s; current = s }) no_stats q)
  ]

module _ {W : Type 0} (w : World W) (embed_events use_cross_encoder : Bool)
    (ground_context : Option GroundingContext) (now : ℕ) where
  -- The gate's telemetry commits: once the gate reports a rule of a candidate, all that the merge wrote
  -- before is durable though the merge has not ended: the durable store is the one that the connection
  -- saw, but for the telemetry. If that holds an event of evidence `i`, then on the store that a
  -- process leaves which dies right after, no merge of evidence `i` does anything, whenever and with
  -- whatever settings it runs.
  pub rule_commits-partial :
      (e : Event W) (t : Txn W) (st : Stats) (rule : String) (i : ℕ)
      → (admit w e ground_context).rule_id ≡ some rule
      → str_eq rule "" ≡ false
      → is_merged (some i) t.current ≡ true
      → (embed_later cross_later : Bool) (ground_later : Option GroundingContext) (later : ℕ)
        (session : String) (x : Event W) (xs : List (Event W))
      → x.evidence_id ≡ some i
      → let left =
          durable_of (merge_candidate w embed_events use_cross_encoder ground_context now e t st) in
        (left ≡ record t.current { verdicts = left.verdicts })
        × (execute_merge w embed_later cross_later ground_later later session (x ∷ xs) left
            ≡ (left, some no_stats))
  unfolding execute_merge
  rule_commits-partial e t st rule i fires named merged embed_later cross_later ground_later later
        session x xs from =
      let left =
        durable_of (merge_candidate w embed_events use_cross_encoder ground_context now e t st) in
      let at_end = step-durable w embed_events use_cross_encoder ground_context now e t st in
      let kept : left ≡ record t.current { verdicts = left.verdicts } =
        rw at_end (unfold record_rule record_verdict in rw fires (rw named refl)) in
      let same : left.provenance ≡ t.current.provenance =
        ap (λ (s : EventStore W). s.provenance) kept in
      let again : is_merged x.evidence_id left ≡ true = rw from (
        merged_by_provenance w embed_events use_cross_encoder ground_context now i t.current left
          same merged) in
      (kept, rw again refl)
