-- ===== src/History/Course.antt =====
-- storage/provenance.py: what the operations of storage/events.py and delta/decay.py, which record
-- when a claim ends, do to a table after a time.
use cognikernel.Prelude.{
  ℕ, ◌<◌, ◌≡◌, refl, sym, ap, inl, inr, String, true, false, not, ◌||◌, Option, none, some, List,
  [], arith, ok, ◌==◌, Bool-cases, All, All-map, All-trivial, any, >>=-eq-ok, ok-injective,
  Option-cases, first_where, eq→≡,
}
use cognikernel.Events.Row.{Floats, Event, EventRow, EventStore}
use cognikernel.Events.Links.{
  superseded_row, set_superseded_by, closes_cycle, max_cycle_walk, mark_archived,
}
use cognikernel.Merge.World.{World}
use cognikernel.Merge.Decay.{
  apply_decay_pass, decay_pass, is_decaying, decayed_row, is_stale, already_decayed,
}
use cognikernel.Merge.Ingest.{
  insert_event, insert_row, insert_or_bump, bump_duplicate, bumped_row, bumped_event, by_id,
  new_row, link_if_evidence, link_event_provenance, evidence_exists, event_exists, same_hash,
  is_dangling,
}
use cognikernel.History.{update_weight}
use cognikernel.History.Later.{
  Evolved, Evolved-append, Evolved-self, Evolved-update_where, archived-IsLater, event-IsLater,
  superseded-IsLater,
}

module _ {W : Type 0} (at_ms : ℕ) where
  -- What the operations that record an end do after the time: a claim is superseded or archived at
  -- most once, and a new claim has a later time.
  pub data History (s : EventStore W) : EventStore W → Type 0 where
    unchanged : History s s
    superseding :
        {t : EventStore W} (event_id by now : ℕ) (reason : Option String)
        → History s t
        → at_ms < now
        → All (λ r. r.id ≡ event_id → r.superseded_by ≡ none) t.events
        → History s (set_superseded_by event_id by now reason t).0
    archiving :
        {t : EventStore W} (event_id now : ℕ)
        → History s t
        → at_ms < now
        → All (λ r. r.id ≡ event_id → r.archived ≡ false) t.events
        → History s (mark_archived event_id now t)
    decaying :
        {t : EventStore W} (f : Floats W) (now : ℕ) (project session : String)
        → History s t
        → at_ms < now
        → History s (apply_decay_pass f now project session t).0
    weighing :
        {t : EventStore W} (f : Floats W) (event_id : ℕ) (weight : W)
        → History s t
        → History s (update_weight f event_id weight t)
    inserting :
        {t t' : EventStore W} (w : World W) (e : Event W) (id : ℕ)
        → History s t
        → at_ms < e.created_at
        → insert_event w e t ≡ ok (t', id)
        → History s t'

  link_if-events :
      (event_id : ℕ) (evidence : Option ℕ) (s s' : EventStore W)
      → link_if_evidence event_id evidence s ≡ ok s'
      → s'.events ≡ s.events
  unfolding link_if_evidence link_event_provenance
  link_if-events event_id none s s' q = let same : s ≡ s' = cc in rw same refl
  link_if-events event_id (some i) s s' q =
      elim (Bool-cases (not (evidence_exists i s) || not (event_exists event_id s))) [
        | inl t ↦ let never = rw t at q in cc
        | inr t ↦
            let made = rw t at q in sym (ap (λ (x : EventStore W). x.events) (ok-injective made))
      ]

  is_stale-open :
      (f : Floats W) (project : String) (r : EventRow W)
      → is_stale f project r ≡ true
      → r.archived ≡ false
  unfolding is_stale
  is_stale-open f project r h = ground arith

  module _ {rows : List (EventRow W)} (s : EventStore W)
      (before : Evolved at_ms rows s.events) where
    superseding-Evolved :
        (event_id by now : ℕ) (reason : Option String)
        → at_ms < now
        → All (λ r. r.id ≡ event_id → r.superseded_by ≡ none) s.events
        → Evolved at_ms rows (set_superseded_by event_id by now reason s).0.events
    unfolding set_superseded_by
    superseding-Evolved event_id by now reason late free = elim (Bool-cases (event_id == by)) [
      | inl t ↦ rw t before
      | inr t ↦ elim (Bool-cases (closes_cycle s.events event_id max_cycle_walk by [])) [
        | inl u ↦ rw (t, u) before
        | inr u ↦
            rw (t, u)
              (Evolved-update_where at_ms (λ r. r.id == event_id) (superseded_row by now reason)
                before (λ r. unfold superseded_row in refl)
                (All-map _ _ s.events
                  (λ r' f p r l.
                    superseded-IsLater at_ms by now reason r r' late (f (eq→≡ r'.id event_id p)) l)
                  free))
      ]
    ]

    archiving-Evolved :
        (event_id now : ℕ)
        → at_ms < now
        → All (λ r. r.id ≡ event_id → r.archived ≡ false) s.events
        → Evolved at_ms rows (mark_archived event_id now s).events
    unfolding mark_archived
    archiving-Evolved event_id now late open_claim =
        Evolved-update_where at_ms _ _ before (λ r. refl)
          (All-map _ _ s.events
            (λ r' f p r l. archived-IsLater at_ms now r r' late (f (eq→≡ r'.id event_id p)) l)
            open_claim)

    decaying-Evolved :
        (f : Floats W) (now : ℕ) (project session : String)
        → at_ms < now
        → Evolved at_ms rows (apply_decay_pass f now project session s).0.events
    unfolding apply_decay_pass decay_pass
    decaying-Evolved f now project session late =
        elim (Bool-cases (already_decayed project session s.meta)) [
          | inl t ↦ rw t before
          | inr t ↦
              let faded =
                Evolved-update_where at_ms (is_decaying f project session) (decayed_row f) before
                  (λ r. unfold decayed_row in refl)
                  (All-trivial _ s.events
                    (λ r' p r l. unfold decayed_row in event-IsLater at_ms _ r r' refl refl l)) in
              rw t (
                Evolved-update_where at_ms (is_stale f project) _ faded (λ r. refl)
                  (All-trivial _ _ (λ r' p r l.
                    archived-IsLater at_ms now r r' late (is_stale-open f project r' p) l)))
        ]

    weighing-Evolved :
        (f : Floats W) (event_id : ℕ) (weight : W)
        → Evolved at_ms rows (update_weight f event_id weight s).events
    unfolding update_weight
    weighing-Evolved f event_id weight =
        Evolved-update_where at_ms _ _ before (λ r. refl)
          (All-trivial _ s.events (λ r' p r l. event-IsLater at_ms _ r r' refl refl l))

    insert_or_bump-Evolved :
        (w : World W) (e : Event W) (s' : EventStore W) (id : ℕ)
        → at_ms < e.created_at
        → insert_or_bump (bumped_row w 1 w.floats.dedup_increment e.evidence_id) e s ≡ ok (s', id)
        → Evolved at_ms rows s'.events
    unfolding insert_or_bump insert_row bump_duplicate
    insert_or_bump-Evolved w e s' id late q =
        elim (Bool-cases
          (any (same_hash e.project_id e.content_hash) s.events || is_dangling e.evidence_id s)) [
            | inr t ↦
                let made = rw (t, insert_or_bump) at q in
                let same = ap (λ (x : EventStore W × ℕ). x.0.events) (ok-injective made) in
                rw (← same)
                  (Evolved-append at_ms (new_row e s.next_id) before (unfold new_row in late))
            | inl t ↦
                elim (Option-cases (first_where (same_hash e.project_id e.content_hash) s.events)) [
                  | inl n ↦ let never = rw (t, n, insert_or_bump, bump_duplicate) at q in cc
                  | inr (row, n) ↦
                      let made = rw (t, n, insert_or_bump, bump_duplicate) at q in
                      rw (← ap (λ (x : EventStore W × ℕ). x.0.events) (ok-injective made)) (
                        Evolved-update_where at_ms (by_id row.id)
                          (bumped_row w 1 w.floats.dedup_increment e.evidence_id) before
                          (λ r. unfold bumped_row bumped_event in refl)
                          (All-trivial _ s.events (λ r' p r l.
                            unfold bumped_row bumped_event in
                            event-IsLater at_ms _ r r' refl refl l)))
                ]
          ]

    inserting-Evolved :
        (w : World W) (e : Event W) (id : ℕ) (s' : EventStore W)
        → at_ms < e.created_at
        → insert_event w e s ≡ ok (s', id)
        → Evolved at_ms rows s'.events
    unfolding insert_event
    inserting-Evolved w e id s' late q =
        let (done, first, then_) = >>=-eq-ok (insert_or_bump _ e s) _ q in
        let (linked, second, last) =
          >>=-eq-ok (link_if_evidence done.1 e.evidence_id done.0) _ then_ in
        let same : linked ≡ s' = cc in
        let events = link_if-events done.1 e.evidence_id done.0 linked second in
        rw (← same, events) (insert_or_bump-Evolved w e done.0 done.1 late first)

  -- So the table evolves.
  pub History-Evolved : {s t : EventStore W} → History s t → Evolved at_ms s.events t.events
  History-Evolved {s} unchanged = Evolved-self at_ms s.events
  History-Evolved (superseding {t} event_id by now reason h late free) =
      superseding-Evolved t (History-Evolved h) event_id by now reason late free
  History-Evolved (archiving {t} event_id now h late free) =
      archiving-Evolved t (History-Evolved h) event_id now late free
  History-Evolved (decaying {t} f now project session h late) =
      decaying-Evolved t (History-Evolved h) f now project session late
  History-Evolved (weighing {t} f event_id weight h) =
      weighing-Evolved t (History-Evolved h) f event_id weight
  History-Evolved (inserting {t} {t'} w e id h late q) =
      inserting-Evolved t (History-Evolved h) w e id t' late q
