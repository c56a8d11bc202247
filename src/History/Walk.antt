-- ===== src/History/Walk.antt =====
-- storage/provenance.py: the walk over the links of an event ends, and it starts at the event.
use cognikernel.Prelude.{
  ℕ, zero, suc, ◌+◌, ◌≤◌, ◌<◌, ◌≡◌, refl, ap, ◌∙◌, Bool, true, false, Option, none, some, List, [],
  ◌∷◌, arith, ltb, ◌==◌, if◌then◌else◌, any, count_where, find_key, find_key-key, sort_down, length,
  insert_sorted, is_some, Bool-cases, Option-cases, inl, inr,
}
use mathlib.Core.Option.{some-injective}
use cognikernel.Events.Row.{EventRow, EventStore}
use cognikernel.History.Chain.{
  max_chain, is_link_to, push_link, push_replaced, is_seen, walk_links, n_replaced, rounds_left,
  is_older, supersession_chain,
}

length-push_link :
    (link : Option ℕ) (stack : List ℕ) → length (push_link link stack) ≤ suc (length stack)
unfolding push_link
length-push_link none stack = omega arith
length-push_link (some id) stack = omega arith

module _ {W : Type 0} where
  length-push_replaced :
      (id : ℕ) (rows : List (EventRow W)) (stack : List ℕ)
      → length (push_replaced id rows stack) ≡ n_replaced id rows + length stack
  unfolding push_replaced n_replaced count_where
  length-push_replaced id [] stack = omega arith
  length-push_replaced id (r ∷ rows) stack = elim (Bool-cases (is_link_to id r.superseded_by)) [
    | inl t ↦ rw t (let rest = length-push_replaced id rows (r.id ∷ stack) in omega (arith, rest))
    | inr t ↦ rw t (let rest = length-push_replaced id rows stack in omega (arith, rest))
  ]

  rounds_left-seen :
      (rows seen : List (EventRow W)) (q : EventRow W) (some_rows : List (EventRow W))
      → rounds_left rows (q ∷ seen) some_rows ≤ rounds_left rows seen some_rows
  unfolding rounds_left is_seen any
  rounds_left-seen rows seen q [] = omega arith
  rounds_left-seen rows seen q (r ∷ some_rows) =
      ground (arith, rounds_left-seen rows seen q some_rows)

  rounds_left-found :
      (rows seen : List (EventRow W)) (id : ℕ) (q : EventRow W) (some_rows : List (EventRow W))
      → is_seen id seen ≡ false
      → find_key (λ (r : EventRow W). r.id) id some_rows ≡ some q
      → rounds_left rows (q ∷ seen) some_rows + (2 + n_replaced id rows)
        ≤ rounds_left rows seen some_rows
  unfolding rounds_left is_seen any find_key
  rounds_left-found rows seen id q [] new e = let never = e in cc
  rounds_left-found rows seen id q (r ∷ some_rows) new e = elim (Bool-cases (r.id == id)) [
    | inl t ↦ ground (arith, rounds_left-seen rows seen q some_rows)
    | inr t ↦ ground (arith, rounds_left-found rows seen id q some_rows new)
  ]

  pub walk_links-ends :
      (n : ℕ) (rows : List (EventRow W)) (stack : List ℕ) (seen : List (EventRow W))
      → length stack + rounds_left rows seen rows < n
      → (out : List (EventRow W)) × (walk_links n rows stack seen ≡ some out)
  unfolding walk_links
  walk_links-ends zero rows stack seen h = absurd (omega arith)
  walk_links-ends (suc n) rows [] seen h = (seen, refl)
  walk_links-ends (suc n) rows (current ∷ stack) seen h =
      elim (Bool-cases (ltb (length seen) max_chain)) [
        | inr t ↦ rw (t, walk_links) (seen, refl)
        | inl t ↦ elim (Bool-cases (is_seen current seen)) [
          | inl o ↦ rw (t, o, walk_links) (walk_links-ends n rows stack seen (omega arith))
          | inr o ↦ elim (Option-cases (find_key (λ (r : EventRow W). r.id) current rows)) [
            | inl e ↦ rw (t, o, e, walk_links) (walk_links-ends n rows stack seen (omega arith))
            | inr (r, e) ↦
                let left = rounds_left-found rows seen current r rows o e in
                let pushed = length-push_replaced current rows (push_link r.superseded_by stack) in
                let linked = length-push_link r.superseded_by stack in
                rw (t, o, e, walk_links)
                  (walk_links-ends n rows
                    (push_replaced current rows (push_link r.superseded_by stack)) (r ∷ seen)
                    (omega (arith, left, pushed, linked)))
          ]
        ]
      ]

  walk_links-keeps :
      (n : ℕ) (rows : List (EventRow W)) (stack : List ℕ) (seen out : List (EventRow W)) (id : ℕ)
      → walk_links n rows stack seen ≡ some out
      → is_seen id seen ≡ true
      → is_seen id out ≡ true
  unfolding walk_links
  walk_links-keeps zero rows stack seen out id e h = let never = e in cc
  walk_links-keeps (suc n) rows [] seen out id e h = rw (← some-injective _ _ e) h
  walk_links-keeps (suc n) rows (current ∷ stack) seen out id e h =
      elim (Bool-cases (ltb (length seen) max_chain)) [
        | inr t ↦
            let same : seen ≡ out = some-injective _ _ (rw (t, walk_links) at e) in rw (← same) h
        | inl t ↦ elim (Bool-cases (is_seen current seen)) [
          | inl o ↦ walk_links-keeps n rows stack seen out id (rw (t, o, walk_links) at e) h
          | inr o ↦ elim (Option-cases (find_key (λ (r : EventRow W). r.id) current rows)) [
            | inl g ↦ walk_links-keeps n rows stack seen out id (rw (t, o, g, walk_links) at e) h
            | inr (r, g) ↦
                walk_links-keeps n rows
                  (push_replaced current rows (push_link r.superseded_by stack)) (r ∷ seen) out id
                  (rw (t, o, g, walk_links) at e) (unfold is_seen any in ground (arith, h))
          ]
        ]
      ]

  is_seen-insert :
      (id : ℕ) (less : EventRow W → EventRow W → Bool) (r : EventRow W) (rows : List (EventRow W))
      → is_seen id (insert_sorted less r rows) ≡ is_seen id (r ∷ rows)
  unfolding is_seen any insert_sorted
  is_seen-insert id less r [] = refl
  is_seen-insert id less r (x ∷ rows) = ground (arith, is_seen-insert id less r rows)

  pub is_seen-sort :
      (id : ℕ) (less : EventRow W → EventRow W → Bool) (rows : List (EventRow W))
      → is_seen id (sort_down less rows) ≡ is_seen id rows
  unfolding is_seen any sort_down
  is_seen-sort id less [] = refl
  is_seen-sort id less (r ∷ rows) =
      is_seen-insert id less r (sort_down less rows)
      ∙ ap (λ b. if r.id == id then true else b) (is_seen-sort id less rows)

  walk_links-starts :
      (n : ℕ) (rows : List (EventRow W)) (id : ℕ) (out : List (EventRow W))
      → walk_links (suc (suc n)) rows (id ∷ []) [] ≡ some out
      → is_seen id out ≡ is_some (find_key (λ (r : EventRow W). r.id) id rows)
  unfolding walk_links max_chain is_seen any
  walk_links-starts n rows id out e =
      elim (Option-cases (find_key (λ (r : EventRow W). r.id) id rows)) [
        | inl g ↦
            let same : [] ≡ out = some-injective _ _ (rw (g, walk_links) at e) in
            rw (g, ← same) refl
        | inr (r, g) ↦
            let known = find_key-key (λ (q : EventRow W). q.id) id rows r g in
            rw g (
              walk_links-keeps (suc n) rows (push_replaced id rows (push_link r.superseded_by []))
                (r ∷ []) out id (rw (g, walk_links) at e) (ground (arith, known)))
      ]

  -- The walk of `supersession_chain` ends, whatever the links are, those of a cycle included, and
  -- the chain that it returns holds the event that was asked for if, and only if, the store does.
  pub supersession_chain-ends :
      (event_id : ℕ) (s : EventStore W)
      → (chain : List (EventRow W)) × (supersession_chain event_id s ≡ some chain)
        × (is_seen event_id chain ≡ is_some (find_key (λ (r : EventRow W). r.id) event_id s.events))
  unfolding supersession_chain
  supersession_chain-ends event_id s =
      let n = rounds_left s.events [] s.events in
      let (out, e) = walk_links-ends (suc (suc n)) s.events (event_id ∷ []) [] (omega arith) in
      (
        sort_down (λ a b. is_older b a) out,
        rw e refl,
        is_seen-sort event_id _ out ∙ walk_links-starts n s.events event_id out e,
      )
