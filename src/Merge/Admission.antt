-- ===== src/Merge/Admission.antt =====
-- quality/gate.py: why the gate rejects an event.
use cognikernel.Prelude.{
  contains, ℕ, ◌≡◌, ◌⊎◌, refl, String, true, Option, none, some, List, [], ◌∷◌, Result, ok, err,
  arith, codes, Bool-cases, inl, inr,
}
use cognikernel.Events.Row.{
  EventType, decision, constraint_hard, constraint_soft, component_status, approach_abandoned,
  approach_abandoned_do_not_retry, thread_open, thread_close, Event,
}
use cognikernel.Merge.World.{Detectors, World}
use cognikernel.Merge.Gate.{
  downgrade, reject, Verdict, GroundingContext, admitted, is_near_miss, is_statement_type, on_hit,
  ground_path, ground_event, check_statement, fail_open, admit_inner, admit,
}

-- the verdict rejects
abbrev Rejects : Result Verdict → Type 0
Rejects r = (fail_open r).action ≡ reject

rejecting_hit :
    (hit : Result (Option String)) (rest : Result Verdict)
    → Rejects (on_hit reject hit rest)
    → ((rule : String) × (hit ≡ ok (some rule))) ⊎ Rejects rest
unfolding on_hit fail_open
rejecting_hit (err e) rest h = cc
rejecting_hit (ok none) rest h = inr h
rejecting_hit (ok (some rule)) rest h = inl (rule, refl)

downgrading_hit :
    (hit : Result (Option String)) (rest : Result Verdict)
    → Rejects (on_hit downgrade hit rest)
    → Rejects rest
unfolding on_hit fail_open
downgrading_hit (err e) rest h = cc
downgrading_hit (ok none) rest h = h
downgrading_hit (ok (some rule)) rest h = cc

path-near_miss :
    (lower : List ℕ → List ℕ) (path : String) (g : GroundingContext)
    → (ground_path lower path g).action ≡ reject
    → is_near_miss g path ≡ true
unfolding ground_path
path-near_miss lower path g h = ground arith

inventory-near_miss :
    (lower : List ℕ → List ℕ) (path : String) (g : GroundingContext) (known : List String)
    → (elim known as (λ _. Verdict) [ [] ↦ admitted | _ ∷ _ ↦ ground_path lower path g ]).action
      ≡ reject
    → is_near_miss g path ≡ true
inventory-near_miss lower path g [] h = cc
inventory-near_miss lower path g (k ∷ known) h = path-near_miss lower path g h

event-near_miss :
    (lower : List ℕ → List ℕ) (t : EventType) (path : String) (g : Option GroundingContext)
    → Rejects (ok (ground_event lower t path g))
    → (t ≡ component_status) × (k : GroundingContext) × (g ≡ some k) × (is_near_miss k path ≡ true)
unfolding ground_event fail_open
event-near_miss lower component_status path none h = cc
event-near_miss lower component_status path (some g) h =
    (refl, g, refl, inventory-near_miss lower path g g.known_paths h)
event-near_miss lower decision path g h = cc
event-near_miss lower constraint_hard path g h = cc
event-near_miss lower constraint_soft path g h = cc
event-near_miss lower approach_abandoned path g h = cc
event-near_miss lower approach_abandoned_do_not_retry path g h = cc
event-near_miss lower thread_open path g h = cc
event-near_miss lower thread_close path g h = cc

statement-Rejects :
    (d : Detectors) (t : EventType) (description provenance : String) (rest : Result Verdict)
    → Rejects (check_statement d t description provenance rest)
    → ((is_statement_type t ≡ true)
        × (rule : String) × (d.junk_constraint description t ≡ ok (some rule)))
      ⊎ Rejects rest
unfolding check_statement
statement-Rejects d t description provenance rest h = elim (Bool-cases (is_statement_type t)) [
  | inr s ↦ inr (rw (s, check_statement) at h)
  | inl s ↦ elim (Bool-cases (contains (codes "+frag") (codes provenance))) [
    | inl c ↦
        elim (rejecting_hit (d.junk_constraint description t) rest
          (rw (s, c, check_statement) at h)) [ inl (rule, e) ↦ inl (s, rule, e) | inr k ↦ inr k ]
    | inr c ↦
        elim (rejecting_hit (d.junk_constraint description t)
          (on_hit downgrade (d.subject_less description) rest) (rw (s, c, check_statement) at h)) [
            | inl (rule, e) ↦ inl (s, rule, e)
            | inr k ↦ inr (downgrading_hit (d.subject_less description) rest k)
          ]
  ]
]

module _ {W : Type 0} (w : World W) (e : Event W) (g : Option GroundingContext) where
  -- the checks from the fourth on, and from the fifth and the sixth
  abbrev narration : Result Verdict
  narration =
      on_hit downgrade
        (w.detectors.step_narration e.payload.description e.event_type e.payload.source_role)
        (ok (ground_event w.lower e.event_type e.payload.path g))

  abbrev anaphora : Result Verdict
  anaphora =
      on_hit downgrade
        (w.detectors.anaphoric_thread e.payload.description e.event_type e.payload.authority)
        narration

  abbrev instruction : Result Verdict
  instruction =
      on_hit downgrade
        (w.detectors.bare_instruction_thread e.payload.description e.event_type e.payload.authority)
        anaphora

  threads-Rejects :
      Rejects instruction → Rejects (ok (ground_event w.lower e.event_type e.payload.path g))
  threads-Rejects h =
      downgrading_hit
        (w.detectors.step_narration e.payload.description e.event_type e.payload.source_role) _
        (downgrading_hit
          (w.detectors.anaphoric_thread e.payload.description e.event_type e.payload.authority)
          narration
          (downgrading_hit
            (w.detectors.bare_instruction_thread e.payload.description e.event_type
              e.payload.authority)
            anaphora h))

  -- The gate rejects an event only if its description is boilerplate, or is junk in a statement type,
  -- or the event is a component's status whose path is a near miss of a known path.
  pub admit-rejects :
      (admit w e g).action ≡ reject
      → ((rule : String) × (w.detectors.boilerplate e.payload.description ≡ ok (some rule)))
        ⊎ (((is_statement_type e.event_type ≡ true)
              × (rule : String) × (w.detectors.junk_constraint e.payload.description e.event_type
                  ≡ ok (some rule)))
            ⊎ ((e.event_type ≡ component_status)
                × (k : GroundingContext) × (g ≡ some k)
                × (is_near_miss k e.payload.path ≡ true)))
  unfolding admit admit_inner
  admit-rejects h =
      let d = w.detectors in
      let checks =
        check_statement d e.event_type e.payload.description e.payload.provenance instruction in
      elim (rejecting_hit (d.boilerplate e.payload.description) checks h) [
        | inl hit ↦ inl hit
        | inr rest ↦
            elim (statement-Rejects d e.event_type e.payload.description e.payload.provenance
              instruction rest) [
                | inl hit ↦ inr (inl hit)
                | inr last ↦ inr (
                    inr (
                      event-near_miss w.lower e.event_type e.payload.path g (threads-Rejects last)))
              ]
      ]
