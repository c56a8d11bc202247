-- ===== src/History/Connected.antt =====
-- storage/provenance.py: the chain of an event holds what its events replaced, and what replaced them.
use cognikernel.Prelude.{
  ℕ, zero, suc, ◌≡◌, refl, sym, ap, ◌∙◌, Bool, true, ◌||◌, Option, none, some, List, [], ◌∷◌, arith,
  ltb, ◌==◌, any, find_key, find_key-key, find_key-All, sort_down, length, All, insert_sorted,
  Bool-cases, Option-cases, inl, inr,
}
use mathlib.Core.Option.{some-injective}
use cognikernel.Events.Row.{EventRow, EventStore}
use cognikernel.History.Chain.{
  max_chain, is_link_to, push_link, push_replaced, is_seen, walk_links, rounds_left, is_older,
  supersession_chain,
}
use cognikernel.History.Walk.{is_seen-sort, walk_links-ends}

abbrev is_in : ℕ → List ℕ → Bool
is_in id ids = any (λ i. i == id) ids

push_link-keeps :
    (link : Option ℕ) (id : ℕ) (stack : List ℕ)
    → is_in id stack ≡ true
    → is_in id (push_link link stack) ≡ true
unfolding push_link any
push_link-keeps none id stack h = h
push_link-keeps (some i) id stack h = ground (arith, h)

push_link-has :
    (link : Option ℕ) (id : ℕ) (stack : List ℕ)
    → is_link_to id link ≡ true
    → is_in id (push_link link stack) ≡ true
unfolding push_link any is_link_to
push_link-has none id stack h = let never = h in cc
push_link-has (some i) id stack h = ground (arith, h)

module _ {W : Type 0} where
  push_replaced-keeps :
      (cur id : ℕ) (rows : List (EventRow W)) (stack : List ℕ)
      → is_in id stack ≡ true
      → is_in id (push_replaced cur rows stack) ≡ true
  unfolding push_replaced
  push_replaced-keeps cur id [] stack h = h
  push_replaced-keeps cur id (r ∷ rows) stack h =
      push_replaced-keeps cur id rows _ (unfold any in ground (arith, h))

  push_replaced-has :
      (cur : ℕ) (rows : List (EventRow W)) (stack : List ℕ)
      → All
          (λ r.
            is_link_to cur r.superseded_by ≡ true
            → is_in r.id (push_replaced cur rows stack) ≡ true)
          rows
  unfolding push_replaced
  push_replaced-has cur [] stack = tt
  push_replaced-has cur (r ∷ rows) stack = (
    (λ h. push_replaced-keeps cur r.id rows _ (rw h (unfold any in ground arith))),
    push_replaced-has cur rows _,
  )

  abbrev id_of : EventRow W → ℕ
  id_of r = r.id

  abbrev is_linked : EventRow W → EventRow W → Bool
  is_linked a b = is_link_to b.id a.superseded_by || is_link_to a.id b.superseded_by

  module _ (rows : List (EventRow W)) (a b : EventRow W)
      (there_a : find_key id_of a.id rows ≡ some a) (there_b : find_key id_of b.id rows ≡ some b)
      (linked : is_linked a b ≡ true) where
    abbrev is_open : List ℕ → List (EventRow W) → Bool
    is_open stack seen = is_seen b.id seen || is_in b.id stack

    -- a round for the first event of the link
    round-opens :
        (stack : List ℕ)
        → is_in b.id (push_replaced a.id rows (push_link a.superseded_by stack)) ≡ true
    round-opens stack = elim (Bool-cases (is_link_to b.id a.superseded_by)) [
      | inl t ↦ push_replaced-keeps a.id b.id rows _ (push_link-has a.superseded_by b.id stack t)
      | inr t ↦
          (find_key-All id_of _ b.id rows b
              (push_replaced-has a.id rows (push_link a.superseded_by stack)) there_b).0
            (ground (arith, linked))
    ]

    found-opens :
        (current : ℕ) (r : EventRow W) (stack : List ℕ) (seen : List (EventRow W))
        → find_key id_of current rows ≡ some r
        → (is_seen a.id seen ≡ true → is_open (current ∷ stack) seen ≡ true)
        → is_seen a.id (r ∷ seen) ≡ true
        → is_open (push_replaced current rows (push_link r.superseded_by stack)) (r ∷ seen) ≡ true
    unfolding is_seen any
    found-opens current r stack seen g inv k =
        let known = find_key-key id_of current rows r g in
        elim (Bool-cases (r.id == a.id)) [
          | inl t ↦
              let at_a : current ≡ a.id = ground (arith, known, t) in
              let same : r ≡ a =
                some-injective _ _ (sym g ∙ ap (λ i. find_key id_of i rows) at_a ∙ there_a) in
              rw (same, at_a) (ground (arith, round-opens stack))
          | inr t ↦
              let open_b = inv (ground (arith, k, t)) in
              elim (Bool-cases (is_in b.id stack)) [
                | inl o ↦
                    let kept =
                      push_replaced-keeps current b.id rows _
                        (push_link-keeps r.superseded_by b.id stack o) in
                    ground (arith, kept)
                | inr o ↦ ground (arith, open_b, known, o)
              ]
        ]

    walk_links-connected :
        (n : ℕ) (stack : List ℕ) (seen out : List (EventRow W))
        → walk_links n rows stack seen ≡ some out
        → ltb (length out) max_chain ≡ true
        → (is_seen a.id seen ≡ true → is_open stack seen ≡ true)
        → is_seen a.id out ≡ true
        → is_seen b.id out ≡ true
    unfolding walk_links
    walk_links-connected zero stack seen out e short inv h = let never = e in cc
    walk_links-connected (suc n) [] seen out e short inv h =
        let same : seen ≡ out = some-injective _ _ e in
        let open_b = inv (rw same h) in rw (← same) (unfold any in ground (arith, open_b))
    walk_links-connected (suc n) (current ∷ stack) seen out e short inv h =
        elim (Bool-cases (ltb (length seen) max_chain)) [
          | inr t ↦
              let same : seen ≡ out = some-injective _ _ (rw (t, walk_links) at e) in
              absurd (let early = rw (← same) at short in cc)
          | inl t ↦ elim (Bool-cases (is_seen current seen)) [
            | inl o ↦
                walk_links-connected n stack seen out (rw (t, o, walk_links) at e) short
                  (λ k. unfold any in ground (arith, inv k, o)) h
            | inr o ↦ elim (Option-cases (find_key id_of current rows)) [
              | inl g ↦
                  walk_links-connected n stack seen out (rw (t, o, g, walk_links) at e) short
                    (λ k. unfold any in ground (arith, inv k, g, there_b)) h
              | inr (r, g) ↦
                  walk_links-connected n
                    (push_replaced current rows (push_link r.superseded_by stack)) (r ∷ seen) out
                    (rw (t, o, g, walk_links) at e) short
                    (λ k. found-opens current r stack seen g inv k) h
            ]
          ]
        ]

  length-insert :
      (less : EventRow W → EventRow W → Bool) (r : EventRow W) (rows : List (EventRow W))
      → length (insert_sorted less r rows) ≡ suc (length rows)
  unfolding insert_sorted
  length-insert less r [] = refl
  length-insert less r (x ∷ rows) = elim (Bool-cases (less r x)) [
    | inl t ↦ rw (t, length) (let rest = length-insert less r rows in omega (arith, rest))
    | inr t ↦ rw (t, length) refl
  ]

  length-sort :
      (less : EventRow W → EventRow W → Bool) (rows : List (EventRow W))
      → length (sort_down less rows) ≡ length rows
  unfolding sort_down
  length-sort less [] = refl
  length-sort less (r ∷ rows) =
      length-insert less r (sort_down less rows) ∙ ap (λ n. suc n) (length-sort less rows)

  -- A chain of fewer than 10,000 events is complete: where it holds an event, it holds the event
  -- that replaced it and every event that it replaced, as far as the store has them.
  pub supersession_chain-connected :
      (event_id : ℕ) (s : EventStore W) (chain : List (EventRow W)) (a b : EventRow W)
      → supersession_chain event_id s ≡ some chain
      → ltb (length chain) max_chain ≡ true
      → find_key id_of a.id s.events ≡ some a
      → find_key id_of b.id s.events ≡ some b
      → is_linked a b ≡ true
      → is_seen a.id chain ≡ true
      → is_seen b.id chain ≡ true
  unfolding supersession_chain
  supersession_chain-connected event_id s chain a b found short there_a there_b linked h =
      let n = suc (suc (rounds_left s.events [] s.events)) in
      let less = λ (x y : EventRow W). is_older y x in
      let (out, e) = walk_links-ends n s.events (event_id ∷ []) [] (omega arith) in
      let same : sort_down less out ≡ chain = some-injective _ _ (rw e at found) in
      let few : ltb (length out) max_chain ≡ true =
        ap (λ k. ltb k max_chain) (sym (length-sort less out))
        ∙ ap (λ c. ltb (length c) max_chain) same
        ∙ short in
      let seen_a : is_seen a.id out ≡ true =
        sym (is_seen-sort a.id less out) ∙ ap (is_seen a.id) same ∙ h in
      let seen_b =
        walk_links-connected s.events a b there_a there_b linked n (event_id ∷ []) [] out e few
          (unfold is_seen any in λ k. let never = k in cc) seen_a in
      ap (is_seen b.id) (sym same) ∙ is_seen-sort b.id less out ∙ seen_b
