-- ===== src/Events/Chains.antt =====
-- storage/events.py: following the links always ends, and what the guard refuses.
use cognikernel.Prelude.{
  ℕ, zero, suc, ◌≡◌, ◌≢◌, refl, sym, ap, subst, fun_ext, ◌∙◌, String, true, false, Option, none,
  some, List, [], ◌∷◌, inl, inr, arith, ◌==◌, if◌then◌else◌, eq→≡, eq_self, Bool-cases,
  Option-cases, All, All-map, any, find_key, update_where, find_key-update_where, find_key-key,
}
use mathlib.Core.Option
use cognikernel.Events.Row.{EventRow, EventStore}
use cognikernel.Events.Links.{superseded_of, link, closes_cycle, superseded_row}

-- Following `f` from `x`, the chain ends within `n` events.
abbrev pub EndsIn : (ℕ → Option ℕ) → ℕ → ℕ → Type 0
EndsIn f zero x = ⊥
EndsIn f (suc n) x = elim (f x) [ none ↦ Unit | some y ↦ EndsIn f n y ]

-- The same, and the chain does not hold `e`.
abbrev AvoidsIn : (ℕ → Option ℕ) → ℕ → ℕ → ℕ → Type 0
AvoidsIn f e zero x = ⊥
AvoidsIn f e (suc n) x =
    ((x == e) ≡ false) × (elim (f x) [ none ↦ Unit | some y ↦ AvoidsIn f e n y ])

-- At least one link leads from `x` to `y`.
pub data Leads (f : ℕ → Option ℕ) : ℕ → ℕ → Type 0 where
  one : {x y : ℕ} → f x ≡ some y → Leads f x y
  more : {x y z : ℕ} → f x ≡ some y → Leads f y z → Leads f x z

Leads-snoc : {f : ℕ → Option ℕ} {x y z : ℕ} → Leads f x y → f y ≡ some z → Leads f x z
Leads-snoc (one e) h = more e (one h)
Leads-snoc (more e l) h = more e (Leads-snoc l h)

EndsIn-next :
    (f : ℕ → Option ℕ) (n x : ℕ) {y : ℕ} → EndsIn f (suc n) x → f x ≡ some y → EndsIn f n y
EndsIn-next f n x {y} h e = rw (e, EndsIn) at h

pub EndsIn-stop : (f : ℕ → Option ℕ) (n x : ℕ) → f x ≡ none → EndsIn f (suc n) x
EndsIn-stop f n x e = rw (e, EndsIn) tt

EndsIn-go : (f : ℕ → Option ℕ) (n x : ℕ) {y : ℕ} → f x ≡ some y → EndsIn f n y → EndsIn f (suc n) x
EndsIn-go f n x e h = rw (e, EndsIn) h

-- A chain that ends comes back to none of its events.
no_loop : (f : ℕ → Option ℕ) (n : ℕ) {x y : ℕ} → EndsIn f n x → Leads f x y → x ≢ y
no_loop f zero h l p = h
no_loop f (suc n) {x} {y} h (one e) p =
    no_loop f n (EndsIn-next f n x h e) (one (subst (λ z. f z ≡ some y) p e)) refl
no_loop f (suc n) {x} {y} h (more {y = z} e l) p =
    no_loop f n (EndsIn-next f n x h e) (Leads-snoc (subst (λ w. Leads f z w) (sym p) l) e) refl

module _ {W : Type 0} (rows : List (EventRow W)) (e : ℕ) where
  not_seen :
      (n cur : ℕ) (seen : List ℕ)
      → EndsIn (link rows) n cur
      → All (λ z. Leads (link rows) z cur) seen
      → any (λ x. x == cur) seen ≡ false
  unfolding any
  not_seen n cur [] h l = refl
  not_seen n cur (z ∷ seen) h l = elim (Bool-cases (z == cur)) [
    | inl t ↦
        let p : z ≡ cur = eq→≡ z cur t in
        absurd (no_loop (link rows) n h (subst (λ w. Leads (link rows) w cur) p l.0) refl)
    | inr t ↦ ground (arith, not_seen n cur seen h l.1)
  ]

  -- A walk that refuses nothing has seen the whole chain, and `e` is not on it.
  walk-AvoidsIn :
      (n cur : ℕ) (seen : List ℕ)
      → EndsIn (link rows) n cur
      → All (λ z. Leads (link rows) z cur) seen
      → closes_cycle rows e n cur seen ≡ false
      → AvoidsIn (link rows) e n cur
  unfolding closes_cycle
  walk-AvoidsIn zero cur seen h l w = h
  walk-AvoidsIn (suc n) cur seen h l w = elim (Bool-cases (cur == e)) [
    | inl t ↦ absurd (ground arith)
    | inr t ↦ elim (Option-cases (link rows cur)) [
      | inl stop ↦ (t, rw stop tt)
      | inr (next, go) ↦ (
        t,
        rw go (
            walk-AvoidsIn n next (cur ∷ seen) (EndsIn-next (link rows) n cur h go)
              (one go, All-map _ _ seen (λ z k. Leads-snoc k go) l)
              (ground (arith, not_seen (suc n) cur seen h l))),
      )
    ]
  ]

  walk_round :
      (n cur : ℕ) {next : ℕ} (seen : List ℕ)
      → (cur == e) ≡ false
      → any (λ x. x == cur) seen ≡ false
      → link rows cur ≡ some next
      → closes_cycle rows e (suc n) cur seen ≡ closes_cycle rows e n next (cur ∷ seen)
  unfolding closes_cycle
  walk_round n cur seen t u go = rw (t, closes_cycle) (rw u (rw go))

  walk_hit :
      (n cur : ℕ) (seen : List ℕ) → (cur == e) ≡ true → closes_cycle rows e (suc n) cur seen ≡ true
  unfolding closes_cycle
  walk_hit n cur seen t = rw (t, closes_cycle)

  -- A chain that the walk follows to its end, and that holds `e`, is refused.
  pub refused-Leads :
      (n cur : ℕ) (seen : List ℕ)
      → EndsIn (link rows) n cur
      → All (λ z. Leads (link rows) z cur) seen
      → Leads (link rows) cur e
      → closes_cycle rows e n cur seen ≡ true
  unfolding closes_cycle
  refused-Leads zero cur seen h l k = absurd h
  refused-Leads (suc n) cur seen h l (one {y = next} go) =
      let h' = EndsIn-next (link rows) n cur h go in
      elim (Bool-cases (cur == e)) [
        | inl t ↦ walk_hit n cur seen t
        | inr t ↦
            walk_round n cur seen t (not_seen (suc n) cur seen h l) go
            ∙ refused_here n (cur ∷ seen) h'
      ]
    where
      refused_here :
          (n : ℕ) (seen' : List ℕ) → EndsIn (link rows) n e → closes_cycle rows e n e seen' ≡ true
      refused_here zero seen' h' = absurd h'
      refused_here (suc n) seen' h' = walk_hit n e seen' (eq_self e)
  refused-Leads (suc n) cur seen h l (more {y = next} go k) = elim (Bool-cases (cur == e)) [
    | inl t ↦ walk_hit n cur seen t
    | inr t ↦
        walk_round n cur seen t (not_seen (suc n) cur seen h l) go
        ∙ refused-Leads n next (cur ∷ seen) (EndsIn-next (link rows) n cur h go)
            (one go, All-map _ _ seen (λ z q. Leads-snoc q go) l) k
  ]

-- Every chain of links ends: each event leads to one that nothing has replaced.
abbrev pub IsAcyclic : {W : Type 0} → List (EventRow W) → Type 0
IsAcyclic rows = (x : ℕ) → (n : ℕ) × EndsIn (link rows) n x

module _ (f g : ℕ → Option ℕ) (e b : ℕ) where
  -- links that differ at `e` alone
  abbrev DifferAt : Type 0
  DifferAt = (x : ℕ) → ((x == e) ≡ false) → g x ≡ f x

  kept : DifferAt → (n x : ℕ) → AvoidsIn f e n x → EndsIn g n x
  kept d zero x h = h
  kept d (suc n) x h = elim (Option-cases (f x)) [
    | inl stop ↦ EndsIn-stop g n x (d x h.0 ∙ stop)
    | inr (y, go) ↦ EndsIn-go g n x (d x h.0 ∙ go) (kept d n y (rw go at h.1))
  ]

  relinked :
      DifferAt
      → g e ≡ some b
      → (n : ℕ) → AvoidsIn f e n b
      → (m x : ℕ) → EndsIn f m x
      → (k : ℕ) × EndsIn g k x
  relinked d at n h zero x k = absurd k
  relinked d at n h (suc m) x k = elim (Bool-cases (x == e)) [
    | inl t ↦ (suc n, EndsIn-go g n x (ap g (eq→≡ x e t) ∙ at) (kept d n b h))
    | inr t ↦ elim (Option-cases (f x)) [
      | inl stop ↦ (1, EndsIn-stop g 0 x (d x t ∙ stop))
      | inr (y, go) ↦
          let (j, ends) = relinked d at n h m y (EndsIn-next f m x k go) in
          (suc j, EndsIn-go g j x (d x t ∙ go) ends)
    ]
  ]

module _ {W : Type 0} (s : EventStore W) (e b now : ℕ) (reason : Option String) where
  abbrev pub written : List (EventRow W)
  written = update_where (λ r. r.id == e) (superseded_row b now reason) s.events

  link-written :
      (x : ℕ)
      → link written x
        ≡ superseded_of (
            Option.map
              (λ r. if r.id == e then superseded_row b now reason r else r)
              (find_key (λ (r : EventRow W). r.id) x s.events))
  unfolding link
  link-written x = ap superseded_of (
      find_key-update_where (λ (r : EventRow W). r.id) (λ r. r.id == e)
        (superseded_row b now reason) x s.events (λ r. unfold superseded_row in refl))

  link-written_ne : DifferAt (link s.events) (link written) e b
  unfolding link superseded_of
  link-written_ne x t =
      link-written x ∙ elim (Option-cases (find_key (λ (r : EventRow W). r.id) x s.events)) [
        | inl gone ↦ rw gone
        | inr (r, found) ↦
            let named = find_key-key (λ (r : EventRow W). r.id) x s.events r found in
            rw found (ground arith)
      ]

  link-written_self :
      (r : EventRow W)
      → find_key (λ (r : EventRow W). r.id) e s.events ≡ some r
      → link written e ≡ some b
  unfolding link superseded_of superseded_row
  link-written_self r found =
      let named = find_key-key (λ (r : EventRow W). r.id) e s.events r found in
      link-written e ∙ rw found (ground arith)

  link-written_absent :
      find_key (λ (r : EventRow W). r.id) e s.events ≡ none
      → (x : ℕ) → link written x ≡ link s.events x
  unfolding link superseded_of
  link-written_absent gone x = elim (Bool-cases (x == e)) [
    | inr t ↦ link-written_ne x t
    | inl t ↦ let p = eq→≡ x e t in rw p (link-written e ∙ rw gone)
  ]

EndsIn-same : (f g : ℕ → Option ℕ) → ((x : ℕ) → g x ≡ f x) → (n x : ℕ) → EndsIn f n x → EndsIn g n x
EndsIn-same f g d n x h = subst (λ (k : ℕ → Option ℕ). EndsIn k n x) (fun_ext (λ y. sym (d y))) h

-- What a link call establishes of a store: all chains end, and that of `b` within the walk's cap.
abbrev pub Guarded : {W : Type 0} → ℕ → ℕ → EventStore W → Type 0
Guarded cap b s = IsAcyclic s.events × EndsIn (link s.events) cap b

module _ {W : Type 0} (s : EventStore W) (e b now : ℕ) (reason : Option String) where
  pub written-Guarded :
      (cap : ℕ)
      → Guarded cap b s
      → closes_cycle s.events e cap b [] ≡ false
      → Guarded cap b (record s { events = written s e b now reason })
  written-Guarded cap (acyclic, short) w =
      elim (Option-cases (find_key (λ (r : EventRow W). r.id) e s.events)) [
        | inl gone ↦
            let same = link-written_absent s e b now reason gone in
            (
              (λ x. let (n, ends) = acyclic x in (n, EndsIn-same _ _ same n x ends)),
              EndsIn-same _ _ same cap b short,
            )
        | inr (r, found) ↦
            let avoids = walk-AvoidsIn s.events e cap b [] short tt w in
            let d = link-written_ne s e b now reason in
            let at = link-written_self s e b now reason r found in
            (
              (λ x. let (n, ends) = acyclic x in relinked _ _ e b d at cap avoids n x ends),
              kept _ _ e b d cap b avoids,
            )
      ]
