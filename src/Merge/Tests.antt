-- ===== src/Merge/Tests.antt =====
-- delta/merge.py and what it calls: a small merge, and the theorems at it.
use cognikernel.Prelude.{
  Option, ok, String, ℕ, ◌≡◌, ◌⊎◌, refl, true, false, none, some, [], ◌∷◌, arith, find_key, All,
}
use cognikernel.Events.Row.{
  EventType, component_status, decision, constraint_hard, Event, EventRow, EventStore,
}
use cognikernel.Merge.Gate.{reject, GroundingContext, is_near_miss, admit, is_statement_type}
use cognikernel.Merge.Decay.{is_protected, apply_decay_pass}
use cognikernel.Merge.Supersede.{find_superseded}
use cognikernel.Merge.Run.{
  Stats, no_stats, Txn, is_merged, insert_extraction_failure, merge_candidate, merge_loop,
  execute_merge,
}
use cognikernel.Merge.Program.{merge_program}
use cognikernel.Merge.Archive.{apply_decay_pass-protects}
use cognikernel.Merge.Gates.{IsJustified, find_superseded-IsJustified}
use cognikernel.Merge.Commit.{
  durable_of, IsQuiet, execute_merge-atomic, merge_loop-durable, rule_commits-partial,
}
use cognikernel.Merge.Between.{no_merge, then_merge}
use cognikernel.Merge.Replay.{execute_merge-replay}
use cognikernel.Merge.Admission.{admit-rejects}
use cognikernel.Samples.{detectors, floats, world, event, row, store}

-- an event of another transcript that the new one replaces
abbrev older : Event ℕ
older = record (event decision "use mysql" "h1") {
  evidence_id = some 6;
  created_at = 90;
  weight = 20;
  session_id = "r";
}

abbrev rule : Event ℕ
rule = record (event constraint_hard "never log keys" "h2") {
  evidence_id = some 6;
  weight = 1;
  session_id = "r";
}

abbrev before : EventStore ℕ
before = store (row 1 none older ∷ row 2 none rule ∷ []) 3

abbrev newer : Event ℕ
newer = event decision "use postgres" "h3"

abbrev junk : Event ℕ
junk = event decision "tool output" "h4"

-- one event is inserted, and replaces event 1; another is rejected; a third is a restatement
merge_stats :
    (execute_merge world false false none 200 "s" (newer ∷ junk ∷ newer ∷ []) before).1
    ≡ some (record {
      n_inserted = 1;
      n_updated = 1;
      n_superseded = 1;
      n_cascaded = 0;
      n_archived = 1;
      n_rejected = 1;
    })
unfolding merge_program
merge_stats = refl

find_superseded-IsJustified_example :
    All
      (IsJustified world false false newer before.events)
      (find_superseded world false false newer before)
find_superseded-IsJustified_example = find_superseded-IsJustified world false false newer before

finds_older : find_superseded world false false newer before ≡ (1, "lexical") ∷ []
unfolding merge_program
finds_older = refl

newer-IsQuiet : IsQuiet world false false none 200 newer
unfolding merge_program
newer-IsQuiet = refl

abbrev lost : EventStore ℕ
lost = record before { evidence_ids = 6 ∷ [] }

abbrev after_failure : EventStore ℕ
after_failure = (execute_merge world false false none 200 "s" (newer ∷ []) lost).0

-- the evidence of the event is not in the store: the merge raises
raised : execute_merge world false false none 200 "s" (newer ∷ []) lost ≡ (after_failure, none)
unfolding merge_program
raised = refl

execute_merge-atomic_example : after_failure ≡ insert_extraction_failure "p" "s" lost
execute_merge-atomic_example =
    execute_merge-atomic world false false none 200 "s" newer [] lost after_failure
      (newer-IsQuiet, tt) raised

merge_loop-durable_example :
    durable_of (
      merge_loop world false false none 200
        (newer ∷ newer ∷ [])
        (record { durable = before; current = before })
        no_stats)
    ≡ before
merge_loop-durable_example =
    merge_loop-durable world false false none 200 (newer ∷ newer ∷ [])
      (record { durable = before; current = before }) no_stats (newer-IsQuiet, (newer-IsQuiet, tt))

-- the first event of the merge is stored, and nothing is durable yet
abbrev half : Txn ℕ
half = record {
  durable = before;
  current = record (store (row 1 none older ∷ row 2 none rule ∷ row 3 none newer ∷ []) 4) {
    provenance =
        record {
          event_id = 3;
          raw_evidence_id = 7;
          extractor_version = "cognikernel.v2";
          transformation_notes = none;
        }
        ∷ [];
  };
}

junk-fires : (admit world junk none).rule_id ≡ some "D2"
unfolding merge_program
junk-fires = refl

half-merged : is_merged (some 7) half.current ≡ true
unfolding merge_program
half-merged = refl

rule_commits-partial_example :
    let left = durable_of (merge_candidate world false false none 200 junk half no_stats) in
    (left ≡ record half.current { verdicts = left.verdicts })
    × (execute_merge world true false none 500 "s" (newer ∷ []) left ≡ (left, some no_stats))
rule_commits-partial_example =
    rule_commits-partial world false false none 200 junk half no_stats "D2" 7 junk-fires refl
      half-merged true false none 500 "s" newer [] refl

abbrev merged : EventStore ℕ
merged = (execute_merge world false false none 200 "s" (newer ∷ junk ∷ []) before).0

abbrev merged_stats : Stats
merged_stats = record {
  n_inserted = 1;
  n_updated = 0;
  n_superseded = 1;
  n_cascaded = 0;
  n_archived = 1;
  n_rejected = 1;
}

merge_returns :
    execute_merge world false false none 200 "s" (newer ∷ junk ∷ []) before
    ≡ (merged, some merged_stats)
unfolding merge_program
merge_returns = refl

-- another session's event comes between
abbrev other : Event ℕ
other = record (event decision "use tabs" "h5") { evidence_id = some 6 }

abbrev later : EventStore ℕ
later = (execute_merge world true false none 500 "r" (other ∷ []) merged).0

execute_merge-replay_example :
    execute_merge world false false none 900 "t" (newer ∷ junk ∷ []) later ≡ (later, some no_stats)
execute_merge-replay_example =
    execute_merge-replay world false false none 200 7 "s" newer (junk ∷ []) before merged
      merged_stats (refl, (refl, tt)) merge_returns (omega arith) later
      (then_merge true false none 500 "r" (other ∷ []) no_merge) false false none 900 "t" newer
      (junk ∷ []) refl

find_rule : find_key (λ (r : EventRow ℕ). r.id) 2 before.events ≡ some (row 2 none rule)
unfolding merge_program
find_rule = refl

apply_decay_pass-protects_example :
    (r' : EventRow ℕ) × (find_key
        (λ (r : EventRow ℕ). r.id)
        2
        (apply_decay_pass floats 200 "p" "s" before).0.events
      ≡ some r')
    × (r'.superseded_by ≡ none)
    × ((is_protected constraint_hard ≡ false) ⊎ (r'.archived ≡ false))
apply_decay_pass-protects_example =
    apply_decay_pass-protects floats 200 "p" "s" before 2 (row 2 none rule) find_rule

junk-rejected : (admit world junk none).action ≡ reject
unfolding merge_program
junk-rejected = refl

admit-rejects_example :
    ((rule : String) × (detectors.boilerplate "tool output" ≡ ok (some rule)))
    ⊎ (((is_statement_type decision ≡ true)
          × (rule : String) × (detectors.junk_constraint "tool output" decision ≡ ok (some rule)))
        ⊎ ((◌≡◌ {A = EventType} decision component_status)
            × (k : GroundingContext) × (◌≡◌ {A = Option GroundingContext} none (some k))
            × (is_near_miss k "" ≡ true)))
admit-rejects_example = admit-rejects world junk none junk-rejected
