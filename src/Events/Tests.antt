-- ===== src/Events/Tests.antt =====
-- storage/events.py: the links of a small log, and the theorems at it.
use cognikernel.Prelude.{
  ℕ, ◌≡◌, ◌↔◌, ◌⊎◌, refl, true, false, none, some, [], ◌∷◌, inl, inr, ◌==◌, find_key, update_where,
  any, subst, eq→≡, Bool-cases, arith,
}
use cognikernel.Events.Row.{decision, EventStore}
use cognikernel.Events.Links.{
  max_cycle_walk, superseded_of, link, closes_cycle, superseded_row, set_superseded_by,
  apply_supersession,
}
use cognikernel.Events.Chains.{EndsIn, EndsIn-stop, Leads, IsAcyclic}
use cognikernel.Events.Acyclic.{set_superseded_by-refuses, apply_supersession-IsAcyclic}
use cognikernel.Samples.{event, row, store}

-- event 2 has replaced event 1
abbrev log : EventStore ℕ
log =
    store
      (row 1 (some 2) (event decision "use sqlite" "h1")
        ∷ row 2 none (event decision "use mysql" "h2")
        ∷ row 3 none (event decision "use postgres" "h3")
        ∷ [])
      4

program : Unit {0}
unfolding max_cycle_walk superseded_of link closes_cycle superseded_row set_superseded_by
    apply_supersession find_key update_where any
program = tt

-- 2 by 1 would close the cycle 2 → 1 → 2
refuses_cycle : set_superseded_by 2 1 50 none log ≡ (log, false)
unfolding program
refuses_cycle = refl

counts_links : (apply_supersession 3 50 (some "lexical") (2 ∷ 3 ∷ []) log).1 ≡ 1
unfolding program
counts_links = refl

log-short : (i : ℕ) → (i ≡ 1) ⊎ (i ≡ 3) → EndsIn (link log.events) max_cycle_walk i
unfolding program
log-short i (inl p) = rw p tt
log-short i (inr p) = rw p tt

link-log : (i : ℕ) → (1 == i) ≡ false → link log.events i ≡ none
unfolding program
link-log i t = ground arith

log-IsAcyclic : IsAcyclic log.events
unfolding program
log-IsAcyclic i = elim (Bool-cases (1 == i)) [
  | inl t ↦ (2, subst (λ x. EndsIn (link log.events) 2 x) (eq→≡ 1 i t) tt)
  | inr t ↦ (1, EndsIn-stop (link log.events) 0 i (link-log i t))
]

-- replacing event 2 by event 1 is refused
set_superseded_by-refuses_example :
    (((set_superseded_by 2 1 50 none log).1 ≡ false)
      ↔ ((◌≡◌ {A = ℕ} 2 1) ⊎ Leads (link log.events) 1 2))
    × (((set_superseded_by 2 1 50 none log).1 ≡ true)
        ⊎ ((set_superseded_by 2 1 50 none log).0 ≡ log))
set_superseded_by-refuses_example =
    set_superseded_by-refuses 2 1 50 none log (log-short 1 (inl refl))

apply_supersession-IsAcyclic_example :
    IsAcyclic (apply_supersession 3 50 (some "lexical") (2 ∷ 3 ∷ []) log).0.events
    × EndsIn
        (link (apply_supersession 3 50 (some "lexical") (2 ∷ 3 ∷ []) log).0.events)
        max_cycle_walk
        3
apply_supersession-IsAcyclic_example =
    apply_supersession-IsAcyclic 3 50 (some "lexical") (2 ∷ 3 ∷ []) log log-IsAcyclic
      (log-short 3 (inr refl))
