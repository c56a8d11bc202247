-- ===== src/Merge/Gates.antt =====
-- delta/supersede.py: every match of `find_superseded` has passed the gates.
use cognikernel.Prelude.{
  ℕ, ◌≡◌, ◌≤◌, refl, String, Bool, true, false, ◌⊎◌, inl, inr, none, some, List, [], ◌∷◌, arith,
  str_eq, All, All-both, All-select, select-All, In, All-In, Bool-cases, Option-cases,
}
use cognikernel.Events.Row.{Event, EventRow, EventStore, same_type}
use cognikernel.Merge.World.{World}
use cognikernel.Merge.Supersede.{
  is_supersession_type, is_thread_scoped, authority_precedence, same_evidence, is_candidate,
  passes_gates, thread_reason, cross_type_reason, supersede_reason, match_rows, find_superseded,
}

-- What lets an open thread replace another.
abbrev pub SameThread : {W : Type 0} → World W → Event W → EventRow W → Type 0
SameThread w e r =
    (str_eq r.session_id e.session_id ≡ true)
    × ((w.similarity.describes_future_session_handoff r.payload.description ≡ false)
        ⊎ (w.similarity.describes_future_session_handoff e.payload.description ≡ true))

-- What lets any other event replace a row: another transcript, and its own type or its subject.
abbrev pub OtherTranscript : {W : Type 0} → World W → Event W → EventRow W → Type 0
OtherTranscript w e r =
    (same_evidence e.evidence_id r.evidence_id ≡ false)
    × ((same_type r.event_type e.event_type ≡ true)
        ⊎ (w.similarity.subject_supersedes e.payload.description r.payload.description ≡ true))

-- What the four gates promise of a row that the event `e` supersedes.
pub record MayReplace {W : Type 0} (w : World W) (e : Event W) (r : EventRow W) : Type 0 where
  pub live : (r.archived ≡ false) × (r.superseded_by ≡ none)
  pub not_newer : r.created_at ≤ e.created_at
  pub authority :
      authority_precedence r.payload.authority ≤ authority_precedence e.payload.authority
  pub scope :
      (is_thread_scoped e.event_type ≡ true × SameThread w e r)
      ⊎ (is_thread_scoped e.event_type ≡ false × OtherTranscript w e r)

module _ {W : Type 0} (w : World W) (use_embeddings use_cross_encoder : Bool) (e : Event W)
    (r : EventRow W) where
  candidate-live :
      is_candidate w use_embeddings use_cross_encoder e r ≡ true
      → (r.archived ≡ false) × (r.superseded_by ≡ none)
  unfolding is_candidate
  candidate-live c = ground arith

  gates-of_reason :
      (reason : String)
      → supersede_reason w use_embeddings use_cross_encoder e r ≡ some reason
      → passes_gates w use_embeddings use_cross_encoder e r ≡ true
  unfolding supersede_reason
  gates-of_reason reason h = ground arith

  gates-time :
      passes_gates w use_embeddings use_cross_encoder e r ≡ true → r.created_at ≤ e.created_at
  unfolding passes_gates
  gates-time g = ground arith

  gates-authority :
      passes_gates w use_embeddings use_cross_encoder e r ≡ true
      → authority_precedence r.payload.authority ≤ authority_precedence e.payload.authority
  unfolding passes_gates
  gates-authority g = ground arith

  gates-session :
      passes_gates w use_embeddings use_cross_encoder e r ≡ true
      → is_thread_scoped e.event_type ≡ true
      → str_eq r.session_id e.session_id ≡ true
  unfolding passes_gates
  gates-session g t = ground arith

  gates-transcript :
      passes_gates w use_embeddings use_cross_encoder e r ≡ true
      → is_thread_scoped e.event_type ≡ false
      → same_evidence e.evidence_id r.evidence_id ≡ false
  unfolding passes_gates
  gates-transcript g t = ground arith

  reason-handoff :
      (reason : String)
      → supersede_reason w use_embeddings use_cross_encoder e r ≡ some reason
      → is_thread_scoped e.event_type ≡ true
      → (w.similarity.describes_future_session_handoff r.payload.description ≡ false)
        ⊎ (w.similarity.describes_future_session_handoff e.payload.description ≡ true)
  unfolding supersede_reason thread_reason
  reason-handoff reason h t = ground arith

  reason-cross_type :
      (reason : String)
      → supersede_reason w use_embeddings use_cross_encoder e r ≡ some reason
      → is_thread_scoped e.event_type ≡ false
      → same_type r.event_type e.event_type ≡ false
      → w.similarity.subject_supersedes e.payload.description r.payload.description ≡ true
  unfolding supersede_reason cross_type_reason
  reason-cross_type reason h t u = ground arith

  reason-scope :
      (reason : String)
      → passes_gates w use_embeddings use_cross_encoder e r ≡ true
      → supersede_reason w use_embeddings use_cross_encoder e r ≡ some reason
      → (is_thread_scoped e.event_type ≡ true × SameThread w e r)
        ⊎ (is_thread_scoped e.event_type ≡ false × OtherTranscript w e r)
  reason-scope reason g h = elim (Bool-cases (is_thread_scoped e.event_type)) [
    | inl t ↦ inl (t, (gates-session g t, reason-handoff reason h t))
    | inr t ↦ inr (
      t,
      (
        gates-transcript g t,
        elim (Bool-cases (same_type r.event_type e.event_type)) [
          | inl u ↦ inl u
          | inr u ↦ inr (reason-cross_type reason h t u)
        ],
      ),
    )
  ]

  reason-MayReplace :
      (reason : String)
      → is_candidate w use_embeddings use_cross_encoder e r ≡ true
      → supersede_reason w use_embeddings use_cross_encoder e r ≡ some reason
      → MayReplace w e r
  reason-MayReplace reason c h =
      let g = gates-of_reason reason h in
      record {
        live = candidate-live c;
        not_newer = gates-time g;
        authority = gates-authority g;
        scope = reason-scope reason g h;
      }

module _ {W : Type 0} (w : World W) (use_embeddings use_cross_encoder : Bool) (e : Event W) where
  -- a match names a row of the table that the gates let through
  abbrev pub IsJustified : List (EventRow W) → ℕ × String → Type 0
  IsJustified rows (id, reason) = (r : EventRow W) × In r rows × (r.id ≡ id) × MayReplace w e r

  match_rows-IsJustified :
      (all rows : List (EventRow W))
      → All (λ r. In r all × (is_candidate w use_embeddings use_cross_encoder e r ≡ true)) rows
      → All (IsJustified all) (match_rows w use_embeddings use_cross_encoder e rows)
  unfolding match_rows
  match_rows-IsJustified all [] h = tt
  match_rows-IsJustified all (r ∷ rows) h =
      let rest = match_rows-IsJustified all rows h.1 in
      elim (Option-cases (supersede_reason w use_embeddings use_cross_encoder e r)) [
        | inl no_reason ↦ rw (no_reason, match_rows) rest
        | inr (reason, why) ↦
            rw (why, match_rows)
              (
                (
                  r,
                  h.0.0,
                  refl,
                  reason-MayReplace w use_embeddings use_cross_encoder e r reason h.0.1 why,
                ),
                rest,
              )
      ]

  -- Every id that `find_superseded` returns is that of a row of the log which is live, is no newer
  -- than the event and no more authoritative, and, unless the event is an open thread, comes from
  -- another transcript and, where its type differs, shares the derived subject; for an open thread it
  -- is of the same session, and is no handoff to a later session unless the event is one too.
  pub find_superseded-IsJustified :
      (s : EventStore W)
      → All (IsJustified s.events) (find_superseded w use_embeddings use_cross_encoder e s)
  unfolding find_superseded
  find_superseded-IsJustified s = elim (Bool-cases (is_supersession_type e.event_type)) [
    | inr t ↦ rw (t, find_superseded) tt
    | inl t ↦
        rw (t, find_superseded)
          (match_rows-IsJustified s.events _ (
            All-both (λ r. In r s.events) _ _
              (All-select (λ r. In r s.events) (is_candidate w use_embeddings use_cross_encoder e)
                s.events (All-In s.events))
              (select-All (is_candidate w use_embeddings use_cross_encoder e) s.events)))
  ]
