-- ===== src/Events/Acyclic.antt =====
-- storage/events.py, delta/supersede.py: the guard of `set_superseded_by` is exact, and no call of
-- it, nor of `apply_supersession`, closes a cycle.
use cognikernel.Prelude.{
  ℕ, zero, suc, ◌≡◌, ◌↔◌, ◌⊎◌, sym, subst, String, true, false, Option, some, List, [], ◌∷◌, inl,
  inr, arith, ◌==◌, eq→≡, eq_self, Bool-cases, Option-cases,
}
use cognikernel.Events.Row.{EventRow, EventStore}
use cognikernel.Events.Links.{
  max_cycle_walk, link, closes_cycle, set_superseded_by, apply_supersession,
}
use cognikernel.Events.Chains.{
  EndsIn, Leads, one, more, IsAcyclic, Guarded, written-Guarded, refused-Leads,
}

module _ {W : Type 0} (rows : List (EventRow W)) (e : ℕ) where
  -- A walk that refuses has met `e`.
  Leads-of_refused :
      (n cur : ℕ) (seen : List ℕ)
      → closes_cycle rows e n cur seen ≡ true
      → (e ≡ cur) ⊎ Leads (link rows) cur e
  unfolding closes_cycle
  Leads-of_refused zero cur seen w = absurd (ground arith)
  Leads-of_refused (suc n) cur seen w = elim (Bool-cases (cur == e)) [
    | inl t ↦ inl (sym (eq→≡ cur e t))
    | inr t ↦ elim (Option-cases (link rows cur)) [
      | inl stop ↦ absurd (ground arith)
      | inr (next, go) ↦ elim (Leads-of_refused n next (cur ∷ seen) (ground arith)) [
        | inl p ↦ inr (one (subst (λ z. link rows cur ≡ some z) (sym p) go))
        | inr l ↦ inr (more go l)
      ]
    ]
  ]

module _ {W : Type 0} (e b now : ℕ) (reason : Option String) (s : EventStore W) where
  -- For a chain of links from `b` that ends within the walk's 10,000 rounds: the call refuses
  -- exactly when `e` is `b` or is reached by following the links from `b`, and then writes nothing.
  pub set_superseded_by-refuses :
      EndsIn (link s.events) max_cycle_walk b
      → (((set_superseded_by e b now reason s).1 ≡ false) ↔ ((e ≡ b) ⊎ Leads (link s.events) b e))
        × (((set_superseded_by e b now reason s).1 ≡ true)
            ⊎ ((set_superseded_by e b now reason s).0 ≡ s))
  unfolding set_superseded_by
  set_superseded_by-refuses short = ((forth, back), quiet)
    where
      quiet :
          ((set_superseded_by e b now reason s).1 ≡ true)
          ⊎ ((set_superseded_by e b now reason s).0 ≡ s)
      quiet = elim (Bool-cases (set_superseded_by e b now reason s).1) [
        | inl t ↦ inl t
        | inr t ↦ inr (ground arith)
      ]

      forth : (set_superseded_by e b now reason s).1 ≡ false → (e ≡ b) ⊎ Leads (link s.events) b e
      forth h = elim (Bool-cases (e == b)) [
        | inl t ↦ inl (eq→≡ e b t)
        | inr t ↦ Leads-of_refused s.events e max_cycle_walk b [] (ground arith)
      ]

      back : (e ≡ b) ⊎ Leads (link s.events) b e → (set_superseded_by e b now reason s).1 ≡ false
      back (inl p) = rw p (rw (eq_self b))
      back (inr l) = ground (arith, refused-Leads s.events e max_cycle_walk b [] short tt l)

  set_superseded_by-Guarded :
      Guarded max_cycle_walk b s → Guarded max_cycle_walk b (set_superseded_by e b now reason s).0
  unfolding set_superseded_by
  set_superseded_by-Guarded g = elim (Bool-cases (e == b)) [
    | inl t ↦ rw t g
    | inr t ↦ rw t (elim (Bool-cases (closes_cycle s.events e max_cycle_walk b [])) [
      | inl w ↦ rw w g
      | inr w ↦ rw w (written-Guarded s e b now reason max_cycle_walk g w)
    ])
  ]

-- Superseding any list of events by one event keeps every chain of links ending, so that each event
-- still leads to one that nothing has replaced, if before it all chains end and that of the new event
-- ends within the walk's 10,000 rounds; this bound holds of the new event afterwards too.
pub apply_supersession-IsAcyclic :
    {W : Type 0} (new_id now : ℕ) (reason : Option String) (olds : List ℕ) (s : EventStore W)
    → IsAcyclic s.events
    → EndsIn (link s.events) max_cycle_walk new_id
    → IsAcyclic (apply_supersession new_id now reason olds s).0.events
      × EndsIn (link (apply_supersession new_id now reason olds s).0.events) max_cycle_walk new_id
unfolding apply_supersession
apply_supersession-IsAcyclic new_id now reason [] s a h = (a, h)
apply_supersession-IsAcyclic new_id now reason (old ∷ olds) s a h =
    let (a', h') = set_superseded_by-Guarded old new_id now reason s (a, h) in
    apply_supersession-IsAcyclic new_id now reason olds
      (set_superseded_by old new_id now reason s).0 a' h'
