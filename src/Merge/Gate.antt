-- ===== src/Merge/Gate.antt =====
-- quality/gate.py: admission of one extracted event. A note of a verdict is for the log alone and
-- is left out.
use cognikernel.Prelude.{
  ℕ, ◌+◌, String, Bool, true, false, not, ◌&&◌, ◌||◌, Option, none, some, List, [], ◌∷◌, Result, ok,
  err, ltb, leb, ◌==◌, if◌then◌else◌, codes, str_eq, any, length, same_text, ends_with, contains,
}
use cognikernel.Events.Row.{
  EventType, decision, constraint_hard, constraint_soft, component_status, approach_abandoned,
  approach_abandoned_do_not_retry, Payload, Event,
}
use cognikernel.Merge.World.{Detectors, World}

pub data Action : Type 0 where
  admit_it downgrade reject : Action

pub record Verdict : Type 0 where
  pub action : Action
  pub rule_id : Option String

pub record GroundingContext : Type 0 where
  pub known_paths : List String
  pub verifiable_suffixes : List (List ℕ)

-- path[path.rfind("."):], if there is a dot
unfoldable pub suffix_from_dot : List ℕ → Option (List ℕ)
suffix_from_dot [] = none
suffix_from_dot (c ∷ cs) = elim (suffix_from_dot cs) [
  | some later ↦ some later
  | none ↦ if c == 46 then some (c ∷ cs) else none
]

unfoldable pub is_known : GroundingContext → String → Bool
is_known g path = any (λ k. str_eq k path) g.known_paths

unfoldable pub can_verify : (List ℕ → List ℕ) → GroundingContext → String → Bool
unfolding suffix_from_dot same_text
can_verify lower g path = elim g.verifiable_suffixes [
  | [] ↦ true
  | s ∷ ss ↦ elim (suffix_from_dot (codes path)) [
    | none ↦ false
    | some suffix ↦ any (λ k. same_text k (lower suffix)) (s ∷ ss)
  ]
]

-- 0 < len(known) - len(path) <= 2 and known.endswith(path); a length is of code points
unfoldable pub is_truncation : String → String → Bool
unfolding ends_with
is_truncation path known =
    ltb (length (codes path)) (length (codes known))
    && leb (length (codes known)) (length (codes path) + 2)
    && ends_with (codes path) (codes known)

unfoldable pub is_near_miss : GroundingContext → String → Bool
unfolding is_known is_truncation
is_near_miss g path =
    if str_eq path "" || is_known g path then false else any (is_truncation path) g.known_paths

unfoldable pub is_statement_type : EventType → Bool
is_statement_type decision = true
is_statement_type constraint_hard = true
is_statement_type constraint_soft = true
is_statement_type approach_abandoned = true
is_statement_type approach_abandoned_do_not_retry = true
is_statement_type _ = false

-- a detector's hit ends the admission with a verdict; without one it goes on
unfoldable pub on_hit : Action → Result (Option String) → Result Verdict → Result Verdict
on_hit action (err e) rest = err e
on_hit action (ok none) rest = rest
on_hit action (ok (some rule)) rest = ok (record { action = action; rule_id = some rule })

abbrev pub admitted : Verdict
admitted = record { action = admit_it; rule_id = none }

unfoldable pub ground_path : (List ℕ → List ℕ) → String → GroundingContext → Verdict
ground_path lower path g =
    if str_eq path "" || not (can_verify lower g path)
    then admitted
    else if is_near_miss g path
    then record { action = reject; rule_id = some "D1" }
    else if is_known g path
    then admitted
    else record { action = downgrade; rule_id = some "D1" }

-- the last check: a component's path against a non-empty inventory
unfoldable pub ground_event :
    (List ℕ → List ℕ) → EventType → String → Option GroundingContext → Verdict
ground_event lower component_status path (some g) = elim g.known_paths [
  | [] ↦ admitted
  | _ ∷ _ ↦ ground_path lower path g
]
ground_event lower t path g = admitted

unfoldable pub check_statement :
    Detectors → EventType → String → String → Result Verdict → Result Verdict
unfolding is_statement_type
check_statement d t description provenance rest =
    if is_statement_type t
    then on_hit reject (d.junk_constraint description t) (
        if contains (codes "+frag") (codes provenance)
        then rest
        else on_hit downgrade (d.subject_less description) rest)
    else rest

-- fail-open: an exception in a detector admits
unfoldable pub fail_open : Result Verdict → Verdict
fail_open (ok v) = v
fail_open (err e) = record { action = admit_it; rule_id = some "gate_error" }

-- the payload that a downgrade by this rule leaves
unfoldable pub mark_payload : String → Payload → Payload
mark_payload rule p =
    if str_eq rule "D1"
    then record p { grounding = some "unverified" }
    else if str_eq rule "D9"
    then record p { authority = "assistant_decided"; quality = some "instruction_not_thread" }
    else if str_eq rule "D10"
    then record p { authority = "assistant_decided"; quality = some "thread_reference" }
    else if str_eq rule "D11"
    then record p { quality = some "step_narration" }
    else record p { quality = some "context_dependent" }

abbrev rule_text : Option String → String
rule_text none = ""
rule_text (some r) = r

module _ {W : Type 0} (w : World W) where
  unfoldable pub admit_inner : Event W → Option GroundingContext → Result Verdict
  unfolding on_hit check_statement ground_event
  admit_inner e ground_context =
      let p = e.payload in
      let t = e.event_type in
      let d = w.detectors in
      on_hit reject (d.boilerplate p.description) (
        check_statement d t p.description p.provenance (
          on_hit downgrade (d.bare_instruction_thread p.description t p.authority) (
            on_hit downgrade (d.anaphoric_thread p.description t p.authority) (
              on_hit downgrade (d.step_narration p.description t p.source_role)
                (ok (ground_event w.lower t p.path ground_context))))))

  unfoldable pub admit : Event W → Option GroundingContext → Verdict
  unfolding fail_open
  admit e ground_context = fail_open (admit_inner e ground_context)

  -- `event.weight or 1.0`
  unfoldable pub weight_or_one : W → W
  weight_or_one x = if w.floats.eq x w.floats.zero then w.floats.one else x

  unfoldable pub apply_verdict : Event W → Verdict → Event W
  unfolding mark_payload weight_or_one
  apply_verdict e v = elim v.action [
    | downgrade ↦ record e {
      weight = w.floats.mul (weight_or_one e.weight) w.floats.downgrade_factor;
      payload = mark_payload (rule_text v.rule_id) e.payload;
    }
    | _ ↦ e
  ]
