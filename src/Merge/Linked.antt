-- ===== src/Merge/Linked.antt =====
-- delta/merge.py, storage/evidence.py: the steps of a merge lose no provenance link, and a link that
-- is written is there.
use cognikernel.Prelude.{
  ℕ, ◌+◌, ◌≡◌, refl, subst, ◌∙◌, String, Bool, true, Option, none, some, List, [], ◌∷◌, ◌++◌,
  Result, ok, err, arith, ◌==◌, str_eq, select, ◌||◌, any, update_where, Bool-cases, inl, inr,
  is_some, >>=-eq-ok, eq_self,
}
use cognikernel.Events.Row.{Event, EventRow, EventStore, Provenance}
use cognikernel.Merge.World.{World}
use cognikernel.Merge.Ingest.{
  same_link, relink, upsert_link, link_event_provenance, link_if_evidence, insert_or_bump,
}
use cognikernel.Merge.Cascade.{
  is_cascade_status, depends_on, cascade_event, mentioned_again, link_cascade, cascade_to,
  cascade_each, cascade_component_status,
}
use cognikernel.Merge.Run.{evidence_already_merged}
use cognikernel.Merge.Untouched.{insert_or_bump-provenance}

-- some event of evidence `i` is linked
abbrev pub IsLinked : {W : Type 0} → ℕ → EventStore W → Type 0
IsLinked i s = evidence_already_merged i s ≡ true

abbrev pub names : ℕ → Provenance → Bool
names i p = p.raw_evidence_id == i

any-append_left :
    (i : ℕ) (ps qs : List Provenance) → any (names i) ps ≡ true → any (names i) (ps ++ qs) ≡ true
unfolding any
any-append_left i [] qs h = cc
any-append_left i (p ∷ ps) qs h = ground (arith, any-append_left i ps qs)

any-append_one :
    (i : ℕ) (ps : List Provenance) (p : Provenance)
    → names i p ≡ true
    → any (names i) (ps ++ p ∷ []) ≡ true
unfolding any
any-append_one i [] p h = rw h
any-append_one i (q ∷ ps) p h = ground (arith, any-append_one i ps p)

any-update_where :
    (i : ℕ) (p : Provenance → Bool) (f : Provenance → Provenance) (ps : List Provenance)
    → ((x : Provenance) → (f x).raw_evidence_id ≡ x.raw_evidence_id)
    → any (names i) (update_where p f ps) ≡ any (names i) ps
unfolding any update_where
any-update_where i p f [] keep = refl
any-update_where i p f (x ∷ ps) keep = ground (arith, keep x, any-update_where i p f ps keep)

any-same_link :
    (event_id i : ℕ) (ps : List Provenance)
    → any (same_link event_id i) ps ≡ true
    → any (names i) ps ≡ true
unfolding any same_link
any-same_link event_id i [] h = cc
any-same_link event_id i (p ∷ ps) h = ground (arith, any-same_link event_id i ps)

module _ (event_id i : ℕ) (version : String) (notes : Option ℕ) (rows : List Provenance) where
  upsert-names : any (names i) (upsert_link event_id i version notes rows) ≡ true
  unfolding upsert_link
  upsert-names = elim (Bool-cases (any (same_link event_id i) rows)) [
    | inl t ↦ rw t (
        any-update_where i (same_link event_id i) (relink version notes) rows
          (λ x. unfold relink in refl)
        ∙ any-same_link event_id i rows t)
    | inr t ↦ rw t (any-append_one i rows _ (eq_self i))
  ]

  upsert-keeps :
      (j : ℕ)
      → any (names j) rows ≡ true
      → any (names j) (upsert_link event_id i version notes rows) ≡ true
  unfolding upsert_link
  upsert-keeps j h = elim (Bool-cases (any (same_link event_id i) rows)) [
    | inl t ↦ rw t (
        any-update_where j (same_link event_id i) (relink version notes) rows
          (λ x. unfold relink in refl)
        ∙ h)
    | inr t ↦ rw t (any-append_left j rows _ h)
  ]

-- The store `s'` has lost none of the links of `s`.
pub record Extends {W : Type 0} (s s' : EventStore W) : Type 0 where
  pub at : (j : ℕ) → IsLinked j s → IsLinked j s'

module _ {W : Type 0} where
  pub Extends-refl : (s : EventStore W) → Extends s s
  Extends-refl s = record { at = λ j h. h }

  pub Extends-trans : {s t u : EventStore W} → Extends s t → Extends t u → Extends s u
  Extends-trans a b = record { at = λ j h. b.at j (a.at j h) }

  pub Extends-same : (s s' : EventStore W) → s'.provenance ≡ s.provenance → Extends s s'
  unfolding evidence_already_merged
  Extends-same s s' e = record { at = λ j h. rw e h }

  link-ok :
      (event_id i : ℕ) (version : String) (notes : Option ℕ) (s s' : EventStore W)
      → link_event_provenance event_id i version notes s ≡ ok s'
      → s'.provenance ≡ upsert_link event_id i version notes s.provenance
  unfolding link_event_provenance
  link-ok event_id i version notes s s' h = ground arith

  -- a successful link is there, and no other is lost
  link-IsLinked :
      (event_id i : ℕ) (version : String) (notes : Option ℕ) (s s' : EventStore W)
      → link_event_provenance event_id i version notes s ≡ ok s'
      → IsLinked i s' × Extends s s'
  unfolding evidence_already_merged
  link-IsLinked event_id i version notes s s' h =
      let e = link-ok event_id i version notes s s' h in
      (
        rw e (upsert-names event_id i version notes s.provenance),
        record { at = λ j k. rw e (upsert-keeps event_id i version notes s.provenance j k) },
      )

  pub link_if-IsLinked :
      (event_id i : ℕ) (evidence : Option ℕ) (s s' : EventStore W)
      → evidence ≡ some i
      → link_if_evidence event_id evidence s ≡ ok s'
      → IsLinked i s' × Extends s s'
  unfolding link_if_evidence
  link_if-IsLinked event_id i none s s' e h = cc
  link_if-IsLinked event_id i (some k) s s' e h =
      let p : k ≡ i = ground arith in
      link-IsLinked event_id i "cognikernel.v2" none s s'
        (subst (λ z. link_event_provenance event_id z "cognikernel.v2" none s ≡ ok s') p h)

module _ {W : Type 0} (w : World W) (now : ℕ) where
  link_cascade-Extends :
      (id status_id : ℕ) (evidence : Option ℕ) (s s' : EventStore W)
      → link_cascade id status_id evidence s ≡ ok s'
      → Extends s s'
  unfolding link_cascade
  link_cascade-Extends id status_id none s s' h = Extends-same s s' (ground arith)
  link_cascade-Extends id status_id (some i) s s' h =
      (link-IsLinked id i "cognikernel.v2.cascade" (some status_id) s s' h).1

  cascade_to-Extends :
      (status_id : ℕ) (e : Event W) (dep : EventRow W) (s s' : EventStore W)
      → cascade_to w now status_id e dep s ≡ ok s'
      → Extends s s'
  unfolding cascade_to
  cascade_to-Extends status_id e dep s s' h =
      let c = cascade_event w now status_id e dep.payload.path in
      let ((t, id), written, linked) =
        >>=-eq-ok (insert_or_bump (mentioned_again w) c s)
          (λ (t, id). link_cascade id status_id e.evidence_id t) h in
      Extends-trans
        (Extends-same s t (insert_or_bump-provenance (mentioned_again w) c s t id written))
        (link_cascade-Extends id status_id e.evidence_id t s' linked)

  after_cascade :
      (status_id : ℕ) (e : Event W) (dep : EventRow W) (deps : List (EventRow W)) (count : ℕ)
      (s s' : EventStore W) (n : ℕ)
      → ((u : EventStore W)
          → cascade_each w now status_id e deps (count + 1) u ≡ ok (s', n)
          → Extends u s')
      → (r : Result (EventStore W)) → cascade_to w now status_id e dep s ≡ r
      → elim r [ ok u ↦ cascade_each w now status_id e deps (count + 1) u | err x ↦ err x ]
        ≡ ok (s', n)
      → Extends s s'
  after_cascade status_id e dep deps count s s' n ih (ok u) q k =
      Extends-trans (cascade_to-Extends status_id e dep s u q) (ih u k)
  after_cascade status_id e dep deps count s s' n ih (err x) q k = cc

  cascade_each-Extends :
      (status_id : ℕ) (e : Event W) (deps : List (EventRow W)) (count : ℕ) (s s' : EventStore W)
      (n : ℕ)
      → cascade_each w now status_id e deps count s ≡ ok (s', n)
      → Extends s s'
  unfolding cascade_each
  cascade_each-Extends status_id e [] count s s' n h = Extends-same s s' (ground arith)
  cascade_each-Extends status_id e (dep ∷ deps) count s s' n h =
      elim (Bool-cases (str_eq dep.payload.path "" || str_eq dep.payload.path e.payload.path)) [
        | inl t ↦ cascade_each-Extends status_id e deps count s s' n (rw (t, cascade_each) at h)
        | inr t ↦
            after_cascade status_id e dep deps count s s' n
              (λ u k. cascade_each-Extends status_id e deps (count + 1) u s' n k)
              (cascade_to w now status_id e dep s) refl (rw (t, cascade_each) at h)
      ]

  pub cascade-Extends :
      (status_id : ℕ) (e : Event W) (s s' : EventStore W) (n : ℕ)
      → cascade_component_status w now status_id e s ≡ ok (s', n)
      → Extends s s'
  unfolding cascade_component_status
  cascade-Extends status_id e s s' n h = elim (Bool-cases (is_cascade_status e.payload.status)) [
    | inr t ↦ Extends-same s s' (ground arith)
    | inl t ↦ elim (Bool-cases (is_some e.payload.cascaded_from || str_eq e.payload.path "")) [
      | inl b ↦ Extends-same s s' (ground arith)
      | inr b ↦
          cascade_each-Extends status_id e
            (select (depends_on w e.project_id e.payload.path) s.events) 0 s s' n (ground arith)
    ]
  ]
