-- ===== src/Merge/Untouched.antt =====
-- delta/supersede.py, delta/merge.py, storage/events.py: the writes of a merge that touch no provenance
-- link.
use cognikernel.Prelude.{ℕ, ◌≡◌, refl, ◌∙◌, String, Option, none, some, List, [], ◌∷◌, ok, arith}
use cognikernel.Events.Row.{Event, EventRow, EventStore}
use cognikernel.Events.Links.{set_superseded_by, apply_supersession}
use cognikernel.Merge.World.{World}
use cognikernel.Merge.Ingest.{insert_row, bump_duplicate, insert_or_bump}
use cognikernel.Merge.Supersede.{
  dedup_priority, apply_groups, dedup_peer, dedup_peers, cross_type_dedup,
}

module _ {W : Type 0} where
  set_superseded_by-provenance :
      (e b now : ℕ) (reason : Option String) (s : EventStore W)
      → (set_superseded_by e b now reason s).0.provenance ≡ s.provenance
  unfolding set_superseded_by
  set_superseded_by-provenance e b now reason s = ground arith

  apply_supersession-provenance :
      (new_id now : ℕ) (reason : Option String) (olds : List ℕ) (s : EventStore W)
      → (apply_supersession new_id now reason olds s).0.provenance ≡ s.provenance
  unfolding apply_supersession
  apply_supersession-provenance new_id now reason [] s = refl
  apply_supersession-provenance new_id now reason (old ∷ olds) s =
      apply_supersession-provenance new_id now reason olds
        (set_superseded_by old new_id now reason s).0
      ∙ set_superseded_by-provenance old new_id now reason s

module _ {W : Type 0} (w : World W) (now : ℕ) where
  pub apply_groups-provenance :
      (new_id : ℕ) (groups : List (String × List ℕ)) (count : ℕ) (s : EventStore W)
      → (apply_groups w now new_id groups count s).0.provenance ≡ s.provenance
  unfolding apply_groups
  apply_groups-provenance new_id [] count s = refl
  apply_groups-provenance new_id ((reason, ids) ∷ groups) count s =
      apply_groups-provenance new_id groups _ (apply_supersession new_id now (some reason) ids s).0
      ∙ apply_supersession-provenance new_id now (some reason) ids s

  dedup_peer-provenance :
      (new_id priority : ℕ) (e : Event W) (r : EventRow W) (s : EventStore W)
      → (dedup_peer w now new_id priority e r s).0.provenance ≡ s.provenance
  unfolding dedup_peer
  dedup_peer-provenance new_id priority e r s = ground (
    arith,
    set_superseded_by-provenance r.id new_id now (some "cross_type_priority") s,
    set_superseded_by-provenance new_id r.id now (some "cross_type_priority") s,
  )

  dedup_peers-provenance :
      (new_id priority : ℕ) (e : Event W) (rows : List (EventRow W)) (count : ℕ) (s : EventStore W)
      → (dedup_peers w now new_id priority e rows count s).0.provenance ≡ s.provenance
  unfolding dedup_peers
  dedup_peers-provenance new_id priority e [] count s = refl
  dedup_peers-provenance new_id priority e (r ∷ rows) count s =
      dedup_peers-provenance new_id priority e rows _ (dedup_peer w now new_id priority e r s).0
      ∙ dedup_peer-provenance new_id priority e r s

  pub cross_type_dedup-provenance :
      (new_id : ℕ) (e : Event W) (s : EventStore W)
      → (cross_type_dedup w now new_id e s).0.provenance ≡ s.provenance
  unfolding cross_type_dedup
  cross_type_dedup-provenance new_id e s = go (dedup_priority e.event_type) refl
    where
      go :
          (o : Option ℕ)
          → dedup_priority e.event_type ≡ o
          → (cross_type_dedup w now new_id e s).0.provenance ≡ s.provenance
      go none q = rw (q, cross_type_dedup)
      go (some priority) q =
          rw (q, cross_type_dedup) (dedup_peers-provenance new_id priority e _ 0 s)

module _ {W : Type 0} where
  bump_duplicate-provenance :
      (bump : EventRow W → EventRow W) (e : Event W) (s s' : EventStore W) (id : ℕ)
      → bump_duplicate bump e s ≡ ok (s', id)
      → s'.provenance ≡ s.provenance
  unfolding bump_duplicate
  bump_duplicate-provenance bump e s s' id h = ground arith

  insert_row-provenance :
      (e : Event W) (s s' : EventStore W) (id : ℕ)
      → insert_row e s ≡ ok (s', id)
      → s'.provenance ≡ s.provenance
  unfolding insert_row
  insert_row-provenance e s s' id h = ground arith

  pub insert_or_bump-provenance :
      (bump : EventRow W → EventRow W) (e : Event W) (s s' : EventStore W) (id : ℕ)
      → insert_or_bump bump e s ≡ ok (s', id)
      → s'.provenance ≡ s.provenance
  unfolding insert_or_bump
  insert_or_bump-provenance bump e s s' id h =
      ground (arith, insert_row-provenance e s s' id, bump_duplicate-provenance bump e s s' id)
