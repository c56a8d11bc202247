-- ===== src/Worker/Retry.antt =====
-- integration/session.py, delta/merge.py: a job that is tried again after its merge was committed.
use cognikernel.Prelude.{
  ℕ, ◌≡◌, ◌≢◌, refl, String, Option, some, List, [], ◌∷◌, ok, All, length, true, Result-cases, inl,
  inr, subst,
}
use mathlib.Core.List
use cognikernel.Jobs.Row.{Job}
use cognikernel.Jobs.Queue.{ack_stage}
use cognikernel.Events.Row.{Event, EventStore}
use cognikernel.Evidence.Chain.{load_full_transcript}
use cognikernel.Evidence.Cursors.{IngestCursor, get_cursor, slice_jsonl_for_extraction}
use cognikernel.Merge.Run.{Stats, evidence_already_merged, is_merged, execute_merge}
use cognikernel.Merge.Replay.{execute_merge-IsLinked}
use cognikernel.Worker.{
  Store, Setting, extract_job, stamp, cursor_at, on_jobs, merging, advancing, run_job,
}
use cognikernel.Worker.Blocks.{Keeps, Keeps-then, Keeps-reading, Keeps-on_jobs}

module _ {W Blob : Type 0} (c : Setting W Blob) (job : Job) where
  abbrev IsOfJob : Event W → Type 0
  IsOfJob e = e.evidence_id ≡ some job.evidence_id

  stamp-IsOfJob :
      (sha : Option String) (es : List (Event W))
      → All IsOfJob (List.map (stamp c job.evidence_id sha) es)
  unfolding stamp
  stamp-IsOfJob sha [] = tt
  stamp-IsOfJob sha (e ∷ es) = (refl, stamp-IsOfJob sha es)

  -- what is extracted for a job is of its evidence
  extract_job-IsOfJob :
      (s : Store W Blob) (x : List (Event W) × ℕ × String)
      → extract_job c job s ≡ ok x
      → All IsOfJob x.0
  unfolding extract_job
  extract_job-IsOfJob s x e =
      elim (Result-cases (load_full_transcript c.codec s.archive job.evidence_id)) [
        | inr (raised, q) ↦ let never = rw (q, extract_job) at e in cc
        | inl (full, q) ↦
            let slice =
              (slice_jsonl_for_extraction c.codec.sha256 full
                (get_cursor c.project_id job.session_id s.cursors)).0 in
            elim (Result-cases (c.extract s.archive job slice)) [
              | inr (raised, r) ↦ let never = rw (q, r, extract_job) at e in cc
              | inl (es, r) ↦
                  let found = rw (q, r, extract_job) at e in
                  let same : List.map
                        (stamp c job.evidence_id (c.head_sha s.archive job.evidence_id)) es
                      ≡ x.0 =
                    cc in
                  subst (All IsOfJob) same (stamp-IsOfJob _ es)
            ]
      ]

  module _ (events : EventStore W)
      (known : evidence_already_merged job.evidence_id events ≡ true) where
    abbrev HasEvents : Store W Blob → Type 0
    HasEvents s = s.events ≡ events

    merging-HasEvents :
        (now : ℕ) (es : List (Event W)) → All IsOfJob es → Keeps HasEvents (merging c now job es)
    unfolding merging execute_merge is_merged
    merging-HasEvents now [] h = record { kept = λ s p. p }
    merging-HasEvents now (e ∷ es) h = record { kept = λ s p. rw (h.0, p, known) refl }

    acking-HasEvents :
        (stage : String) (ref : Option String) (now : ℕ)
        → Keeps HasEvents (on_jobs c (ack_stage job.id stage ref now))
    acking-HasEvents stage ref now =
        Keeps-on_jobs HasEvents c (ack_stage job.id stage ref now) (λ s p. p)

    advancing-HasEvents : (new : IngestCursor) → Keeps HasEvents (advancing c new)
    unfolding advancing
    advancing-HasEvents new = record { kept = λ s p. p }

    run_job-HasEvents : (now : ℕ → ℕ) → Keeps HasEvents (run_job c now job)
    unfolding run_job
    run_job-HasEvents now = Keeps-reading HasEvents c (extract_job c job) _ λ s x e.
        Keeps-then HasEvents _ _ (acking-HasEvents "PARSED" _ (now 1)) λ _.
          Keeps-then HasEvents _ _ (acking-HasEvents "CLASSIFIED" _ (now 2)) λ _.
            Keeps-then HasEvents _ _ (merging-HasEvents (now 3) x.0 (extract_job-IsOfJob s x e))
              λ stats. Keeps-then HasEvents _ _ (acking-HasEvents "MERGED" _ (now 4)) λ _.
                Keeps-then HasEvents _ _ (advancing-HasEvents (cursor_at c job x.1 x.2 (now 5)))
                  λ _.
                    Keeps-then HasEvents _ _
                      (acking-HasEvents "PROJECTED" (some "projection:invalidated") (now 6))
                      λ _. acking-HasEvents "COMPLETED" (some "process_jobs") (now 7)

  -- If a merge of the job's events returned and the gate let one of them through, then every later
  -- attempt at the job, from a store with the events that this merge left, leaves the events as they
  -- are, whatever is then extracted, and whether the attempt succeeds or raises.
  pub run_job-retry :
      (now : ℕ) (e : Event W) (es : List (Event W)) (s : EventStore W) (stats : Stats)
      (t : Store W Blob)
      → All IsOfJob (e ∷ es)
      → execute_merge c.world c.embedding_enabled c.cross_encoder_supersession
          (c.build_grounding_context s)
          now
          job.session_id
          (e ∷ es)
          s
        ≡ (t.events, some stats)
      → stats.n_rejected ≢ length (e ∷ es)
      → (again : ℕ → ℕ) → (run_job c again job t).0.events ≡ t.events
  run_job-retry now e es s stats t from merged some_kept again =
      let known =
        execute_merge-IsLinked c.world c.embedding_enabled c.cross_encoder_supersession
          (c.build_grounding_context s) now job.evidence_id job.session_id e es s t.events stats
          from merged some_kept in
      (run_job-HasEvents t.events known again).kept t refl
