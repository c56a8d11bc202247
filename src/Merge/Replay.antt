-- ===== src/Merge/Replay.antt =====
-- delta/merge.py: a merge that stored an event is recognised by its provenance, and replaying its
-- evidence changes nothing.
use cognikernel.Prelude.{
  ℕ, ◌+◌, ◌≡◌, ◌≢◌, refl, subst, ◌∙◌, String, Bool, true, Option, none, some, List, [], ◌∷◌, Result,
  ok, err, arith, All, Bool-cases, inl, inr, length, ◌⊎◌,
}
use cognikernel.Events.Row.{Event, EventStore}
use cognikernel.Merge.World.{World}
use cognikernel.Merge.Gate.{Verdict, GroundingContext, admit, apply_verdict}
use cognikernel.Merge.Decay.{decay_pass, apply_decay_inner, decay_pass}
use cognikernel.Merge.Run.{
  Stats, no_stats, Txn, Progress, going, failed, record_verdict, record_rule, is_merged,
  invalidate_projection, store_event, with_key, is_reject, merge_candidate, merge_loop, merge_end,
  execute_merge,
}
use cognikernel.Merge.Linked.{IsLinked, Extends, Extends-refl, Extends-trans, Extends-same}
use cognikernel.Merge.Between.{MergesTo, MergesTo-Extends}
use cognikernel.Merge.Stored.{store-IsLinked}

module _ {W : Type 0} (w : World W) (embed_events use_cross_encoder : Bool)
    (ground_context : Option GroundingContext) (now : ℕ) where
  judged-evidence_id :
      (e : Event W) (v : Verdict)
      → (with_key w embed_events use_cross_encoder ground_context now
          (apply_verdict w e v)).evidence_id
        ≡ e.evidence_id
  unfolding with_key apply_verdict
  judged-evidence_id e v = ground arith

  record_rule-current :
      (e : Event W) (rule : Option String) (t : Txn W)
      → Extends t.current (record_rule e rule t).current
  unfolding record_rule record_verdict
  record_rule-current e none t = Extends-refl t.current
  record_rule-current e (some rule) t = Extends-same t.current _ (ground arith)

  abbrev step : Event W → Txn W → Stats → Progress W
  step = merge_candidate w embed_events use_cross_encoder ground_context now

  abbrev rest : List (Event W) → Txn W → Stats → Progress W
  rest = merge_loop w embed_events use_cross_encoder ground_context now

  after_gate :
      (e : Event W) (i : ℕ) (t t' : Txn W) (st st' : Stats)
      → e.evidence_id ≡ some i
      → (r : Result (EventStore W × Stats))
      → store_event w embed_events use_cross_encoder ground_context now e st t.current ≡ r
      → elim r as (λ _. Progress W) [
        | ok (s', n) ↦ going (record t { current = s' }) n
        | err _ ↦ failed t
      ]
        ≡ going t' st'
      → Extends t.current t'.current × IsLinked i t'.current
  after_gate e i t t' st st' from (ok (s, n)) q k =
      let (new, keeps) =
        store-IsLinked w embed_events use_cross_encoder ground_context now e i st t.current s n from
          q in
      let same : s ≡ t'.current = ground arith in
      (subst (λ x. Extends t.current x) same keeps, subst (λ x. IsLinked i x) same new)
  after_gate e i t t' st st' from (err x) q k = cc

  candidate-IsLinked :
      (e : Event W) (i : ℕ) (t t' : Txn W) (st st' : Stats)
      → e.evidence_id ≡ some i
      → step e t st ≡ going t' st'
      → Extends t.current t'.current
        × ((st'.n_rejected ≡ st.n_rejected + 1) ⊎ IsLinked i t'.current)
  unfolding merge_candidate
  candidate-IsLinked e i t t' st st' from h =
      let v = admit w e ground_context in
      let u = record_rule e v.rule_id t in
      let recorded = record_rule-current e v.rule_id t in
      elim (Bool-cases (is_reject v.action))
        as (λ x.
          Extends t.current t'.current
          × ((st'.n_rejected ≡ st.n_rejected + 1) ⊎ IsLinked i t'.current)) [
            | inl b ↦
                let same : u ≡ t' = ground arith in
                (
                  subst (λ (x : Txn W). Extends t.current x.current) same recorded,
                  inl (ground arith),
                )
            | inr b ↦
                let judged =
                  with_key w embed_events use_cross_encoder ground_context now
                    (apply_verdict w e v) in
                let (keeps, new) =
                  after_gate judged i u t' st st' (judged-evidence_id e v ∙ from) _ refl
                    (rw (b, merge_candidate) at h) in
                (Extends-trans recorded keeps, inr new)
          ]

  after_step :
      (i : ℕ) (e : Event W) (es : List (Event W)) (t t' : Txn W) (st st' : Stats)
      → e.evidence_id ≡ some i
      → ((u : Txn W) (n : Stats)
          → rest es u n ≡ going t' st'
          → Extends u.current t'.current
            × ((st'.n_rejected ≡ n.n_rejected + length es) ⊎ IsLinked i t'.current))
      → (p : Progress W) → step e t st ≡ p
      → elim p as (λ _. Progress W) [ going u n ↦ rest es u n | failed u ↦ failed u ] ≡ going t' st'
      → Extends t.current t'.current
        × ((st'.n_rejected ≡ st.n_rejected + length (e ∷ es)) ⊎ IsLinked i t'.current)
  after_step i e es t t' st st' from ih (going u n) q k =
      let (first, one) = candidate-IsLinked e i t u st n from q in
      let (later, all) = ih u n k in
      (
        Extends-trans first later,
        elim one [
          | inr new ↦ inr (later.at i new)
          | inl a ↦ elim all [ inr new ↦ inr new | inl b ↦ inl (ground arith) ]
        ],
      )
  after_step i e es t t' st st' from ih (failed u) q k = cc

  loop-IsLinked :
      (i : ℕ) (es : List (Event W)) (t t' : Txn W) (st st' : Stats)
      → All (λ (e : Event W). e.evidence_id ≡ some i) es
      → rest es t st ≡ going t' st'
      → Extends t.current t'.current
        × ((st'.n_rejected ≡ st.n_rejected + length es) ⊎ IsLinked i t'.current)
  unfolding merge_loop
  loop-IsLinked i [] t t' st st' from h =
      let same : t ≡ t' = ground arith in
      (
        subst (λ (x : Txn W). Extends t.current x.current) same (Extends-refl t.current),
        inl (ground arith),
      )
  loop-IsLinked i (e ∷ es) t t' st st' from h =
      after_step i e es t t' st st' from.0 (λ u n k. loop-IsLinked i es u t' n st' from.1 k)
        (step e t st) refl h

  decay-Extends :
      (project session : String) (s : EventStore W)
      → Extends s (apply_decay_inner w.floats project session s).0
  decay-Extends project session s =
      Extends-same s _ (unfold apply_decay_inner decay_pass in ground arith)

  end-IsLinked :
      (i : ℕ) (es : List (Event W)) (t : Txn W) (project session : String) (s' : EventStore W)
      (st : Stats)
      → All (λ (e : Event W). e.evidence_id ≡ some i) es
      → (p : Progress W) → rest es t no_stats ≡ p
      → merge_end w embed_events use_cross_encoder ground_context now project session p
        ≡ (s', some st)
      → (st.n_rejected ≡ length es) ⊎ IsLinked i s'
  unfolding merge_end invalidate_projection
  end-IsLinked i es t project session s' st from (going u n) q k =
      let (d, m) = apply_decay_inner w.floats project session u.current in
      let kept : Extends u.current s' =
        Extends-trans (decay-Extends project session u.current)
          (Extends-same d s' (ground arith)) in
      elim (loop-IsLinked i es t u no_stats n from q).1 [
        | inl a ↦ inl (ground arith)
        | inr new ↦ inr (kept.at i new)
      ]
  end-IsLinked i es t project session s' st from (failed u) q k = cc

  abbrev execute : String → List (Event W) → EventStore W → EventStore W × Option Stats
  execute = execute_merge w embed_events use_cross_encoder ground_context now

  -- such a merge leaves a provenance row of the evidence
  pub execute_merge-IsLinked :
      (i : ℕ) (session : String) (e : Event W) (es : List (Event W)) (s s' : EventStore W)
      (st : Stats)
      → All (λ (x : Event W). x.evidence_id ≡ some i) (e ∷ es)
      → execute session (e ∷ es) s ≡ (s', some st)
      → st.n_rejected ≢ length (e ∷ es)
      → IsLinked i s'
  unfolding execute_merge
  execute_merge-IsLinked i session e es s s' st from h some_kept =
      elim (Bool-cases (is_merged e.evidence_id s)) as (λ _. IsLinked i s') [
        | inl t ↦
            let same : s ≡ s' = ground arith in
            subst (λ u. IsLinked i u) same (unfold is_merged in rw from.0 at t)
        | inr t ↦
            elim (end-IsLinked i (e ∷ es) (record { durable = s; current = s }) e.project_id session
                s' st from _ refl (rw (t, execute_merge) at h))
              as (λ _. IsLinked i s') [ inl all ↦ absurd (some_kept all) | inr new ↦ new ]
      ]

-- A merge of candidates of evidence `i` that returned, and whose gate let one of them through, is
-- recognised: after any course of other merges, which may raise, a merge of candidates of evidence
-- `i`, in any session, at any time and with any settings and grounding of its own, returns with all
-- statistics 0 and leaves the store as it is.
pub execute_merge-replay :
    {W : Type 0} (w : World W) (embed_events use_cross_encoder : Bool)
    (ground_context : Option GroundingContext) (now i : ℕ) (session : String) (e : Event W)
    (es : List (Event W)) (s s' : EventStore W) (st : Stats)
    → All (λ (x : Event W). x.evidence_id ≡ some i) (e ∷ es)
    → execute_merge w embed_events use_cross_encoder ground_context now session (e ∷ es) s
      ≡ (s', some st)
    → st.n_rejected ≢ length (e ∷ es)
    → (later : EventStore W) → MergesTo w s' later
    → (embed_again cross_again : Bool) (ground_again : Option GroundingContext) (now_again : ℕ)
      (session_again : String) (x : Event W) (xs : List (Event W))
    → x.evidence_id ≡ some i
    → execute_merge w embed_again cross_again ground_again now_again session_again (x ∷ xs) later
      ≡ (later, some no_stats)
unfolding execute_merge
execute_merge-replay w a b g now i session e es s s' st from h some_kept later run a' b' g' _ _ x _
      again =
    let linked = execute_merge-IsLinked w a b g now i session e es s s' st from h some_kept in
    let still = (MergesTo-Extends w s' later run).at i linked in
    let m : is_merged x.evidence_id later ≡ true = unfold is_merged in rw again still in rw m
