-- ===== src/Compression/Budget.antt =====
-- compression/greedy.py: the selection keeps to its limits, and loses no mandatory event that fits.
use cognikernel.Prelude.{
  sort-All, sort_down, take, take-All, ℕ, ◌+◌, ◌≡◌, ◌≤◌, ◌<◌, ◌==◌, any, ◌⊎◌, refl, ap, ◌∙◌, true,
  false, List, [], ◌∷◌, ◌++◌, arith, leb, ltb, select, select-All, All, All-select, All-map,
  All-both, Bool-cases, inl, inr, In, All-In,
}
use cognikernel.Events.Row.{Floats, EventRow, component_status}
use cognikernel.Compression.Greedy.{
  ranks_lower, total, fill, or_first, compress_mandatory, see_all, is_live, is_component,
  is_mandatory, is_other, mandatory_of, components_of, greedy_fill,
}
use cognikernel.Compression.Chosen.{
  IsMandatory, picked-IsMandatory, component-status, IsSettled, events-IsSettled, fill-IsPlaced,
}
use cognikernel.Compression.Sorted.{append-All, fill-All, compress-All, see_all-All}

module _ {W : Type 0} (f : Floats W) (tokens : EventRow W → ℕ) where
  total-append :
      (xs ys : List (EventRow W))
      → total f tokens (xs ++ ys) ≡ total f tokens xs + total f tokens ys
  unfolding total
  total-append [] ys = omega arith
  total-append (x ∷ xs) ys = ap (λ n. tokens x + n) (total-append xs ys) ∙ omega arith

  -- the tokens that a fill reports are those of what it keeps
  fill-total :
      (limit used : ℕ) (rows : List (EventRow W))
      → (fill f tokens limit used rows).1 ≡ used + total f tokens (fill f tokens limit used rows).0
  unfolding fill total
  fill-total limit used [] = omega arith
  fill-total limit used (r ∷ rows) = elim (Bool-cases (leb (used + tokens r) limit)) [
    | inl t ↦ rw t (fill-total limit (used + tokens r) rows ∙ omega arith)
    | inr t ↦ rw t (fill-total limit used rows)
  ]

  -- a fill keeps nothing, or ends within its limit
  fill-limit :
      (limit used : ℕ) (rows : List (EventRow W))
      → ((fill f tokens limit used rows).0 ≡ [])
        ⊎ (used + total f tokens (fill f tokens limit used rows).0 ≤ limit)
  unfolding fill total
  fill-limit limit used [] = inl refl
  fill-limit limit used (r ∷ rows) = elim (Bool-cases (leb (used + tokens r) limit)) [
    | inr t ↦ rw t (fill-limit limit used rows)
    | inl t ↦ rw t (
        inr (elim (fill-limit limit (used + tokens r) rows) [
          | inl e ↦ rw e (ground arith)
          | inr h ↦ ground arith
        ]))
  ]

  fill-from_zero :
      (limit : ℕ) (rows : List (EventRow W))
      → ((fill f tokens limit 0 rows).1 ≡ total f tokens (fill f tokens limit 0 rows).0)
        × (total f tokens (fill f tokens limit 0 rows).0 ≤ limit)
  fill-from_zero limit rows = (
    fill-total limit 0 rows ∙ omega arith,
    elim (fill-limit limit 0 rows) [
      | inl e ↦ rw e (unfold total in omega arith)
      | inr h ↦ omega arith
    ],
  )

  or_first-limit :
      (kept rows : List (EventRow W)) (limit : ℕ)
      → (kept ≡ []) ⊎ (total f tokens kept ≤ limit)
      → (total f tokens (or_first f tokens kept rows) ≤ limit)
        ⊎ ((r : EventRow W) × (or_first f tokens kept rows ≡ r ∷ []))
  unfolding or_first
  or_first-limit (k ∷ kept) rows limit (inl e) = cc
  or_first-limit (k ∷ kept) rows limit (inr h) = inl h
  or_first-limit [] [] limit h = inl (unfold total in omega arith)
  or_first-limit [] (r ∷ rows) limit h = inr (r, refl)

  compress-limit :
      (rows : List (EventRow W)) (limit : ℕ)
      → (total f tokens (compress_mandatory f tokens rows limit) ≤ limit)
        ⊎ ((r : EventRow W) × (compress_mandatory f tokens rows limit ≡ r ∷ []))
  unfolding compress_mandatory
  compress-limit rows limit = elim (Bool-cases (leb (total f tokens rows) limit)) [
    | inl t ↦ rw (t, compress_mandatory) (inl (ground arith))
    | inr t ↦
        rw (t, compress_mandatory)
          (or_first-limit (fill f tokens limit 0 (sort_down (ranks_lower f tokens) rows)).0 _ limit
            (inr (fill-from_zero limit (sort_down (ranks_lower f tokens) rows)).1))
  ]

  mandatory-limit :
      (limit : ℕ) (events : List (EventRow W))
      → (total f tokens (mandatory_of f tokens limit events) ≤ limit)
        ⊎ ((r : EventRow W) × (mandatory_of f tokens limit events ≡ r ∷ []))
  unfolding mandatory_of
  mandatory-limit limit events =
      let mandatory = select (is_mandatory f tokens) (select (is_live f tokens) events) in
      elim (Bool-cases (ltb limit (total f tokens mandatory))) [
        | inl t ↦ rw (t, mandatory_of) (compress-limit mandatory limit)
        | inr t ↦ rw (t, mandatory_of) (inl (ground arith))
      ]

  components-limit :
      (limit : ℕ) (events : List (EventRow W))
      → ((components_of f tokens limit events).1
          ≡ total f tokens (components_of f tokens limit events).0)
        × (total f tokens (components_of f tokens limit events).0 ≤ limit)
  unfolding components_of
  components-limit limit events = fill-from_zero limit (
      take 5 (
        sort_down (λ (a b : EventRow W). f.lt a.weight b.weight)
          (see_all f tokens (select (is_component f tokens) (select (is_live f tokens) events))
            [])))

  mandatory-All :
      (P : EventRow W → Type 0) (limit : ℕ) (events : List (EventRow W))
      → All P (select (is_mandatory f tokens) (select (is_live f tokens) events))
      → All P (mandatory_of f tokens limit events)
  unfolding mandatory_of
  mandatory-All P limit events kept =
      let mandatory = select (is_mandatory f tokens) (select (is_live f tokens) events) in
      elim (Bool-cases (ltb limit (total f tokens mandatory))) [
        | inl t ↦ rw (t, mandatory_of) (compress-All f tokens P mandatory limit kept)
        | inr t ↦ rw (t, mandatory_of) kept
      ]

  components-All :
      (P : EventRow W → Type 0) (limit : ℕ) (events : List (EventRow W))
      → All P (select (is_component f tokens) (select (is_live f tokens) events))
      → All P (components_of f tokens limit events).0
  unfolding components_of
  components-All P limit events h =
      fill-All f tokens P limit 0 _
        (take-All P 5 _ (sort-All P _ _ (see_all-All f tokens P _ [] h tt)))

  -- The selection is mandatory events, then components, then a rest: each of the first is a hard
  -- constraint, an approach that is not to be tried again or a statement of the user, and each of
  -- the second a component's status. The mandatory events keep to their limit or are a single
  -- event, the components keep to theirs, and a rest is added only if the whole selection fits the
  -- budget beside the reserved tokens. Of the other events none that fits is left out: an event of
  -- the list is archived, or is mandatory, or has the id of a selected component, or is in the
  -- rest, or would exceed the budget beside the selection.
  pub greedy_fill-limits :
      (scaled : ℕ → ℕ → ℕ) (events : List (EventRow W)) (budget reserved : ℕ)
      → (mandatory : List (EventRow W)) × (components : List (EventRow W)) × (rest : List
          (EventRow W))
        × (greedy_fill f tokens scaled events budget reserved ≡ mandatory ++ (components ++ rest))
        × All IsMandatory mandatory
        × All (λ r. r.event_type ≡ component_status) components
        × ((total f tokens mandatory ≤ scaled 500 budget)
            ⊎ ((r : EventRow W) × (mandatory ≡ r ∷ [])))
        × (total f tokens components ≤ scaled 150 budget)
        × ((rest ≡ []) ⊎ (total f tokens (mandatory ++ (components ++ rest)) + reserved ≤ budget))
        × All
            (λ r.
              (r.archived ≡ true)
              ⊎ IsMandatory r
              ⊎ (any (λ c. c.id == r.id) components ≡ true)
              ⊎ In r rest
              ⊎ (budget < total f tokens (mandatory ++ (components ++ rest)) + reserved + tokens r))
            events
  unfolding greedy_fill
  greedy_fill-limits scaled events budget reserved =
      let live = select (is_live f tokens) events in
      let mandatory = mandatory_of f tokens (scaled 500 budget) events in
      let components = (components_of f tokens (scaled 150 budget) events).0 in
      let n = (components_of f tokens (scaled 150 budget) events).1 in
      let candidates =
        sort_down (λ (a b : EventRow W). f.lt a.weight b.weight)
          (select (is_other f tokens components) live) in
      let used = total f tokens mandatory + n + reserved in
      let rest = (fill f tokens budget used candidates).0 in
      let (counted, within) = components-limit (scaled 150 budget) events in
      let sums : total f tokens (mandatory ++ (components ++ rest))
          ≡ total f tokens mandatory + (total f tokens components + total f tokens rest) =
        total-append mandatory (components ++ rest)
        ∙ ap (λ k. total f tokens mandatory + k) (total-append components rest) in
      (
        mandatory,
        components,
        rest,
        refl,
        mandatory-All IsMandatory (scaled 500 budget) events (
            All-map _ IsMandatory _ (picked-IsMandatory f tokens)
              (select-All (is_mandatory f tokens) live)),
        components-All (λ r. r.event_type ≡ component_status) (scaled 150 budget) events
            (All-map _ _ _ (component-status f tokens) (select-All (is_component f tokens) live)),
        mandatory-limit (scaled 500 budget) events,
        within,
        elim (fill-limit budget used candidates) [ inl e ↦ inl e | inr h ↦ inr (omega arith) ],
        All-map (IsSettled f tokens budget used components rest) _ events
            (λ r h. elim h [
              | inl t ↦ inl t
              | inr (inl t) ↦ inr (inl t)
              | inr (inr (inl t)) ↦ inr (inr (inl t))
              | inr (inr (inr (inl t))) ↦ inr (inr (inr (inl t)))
              | inr (inr (inr (inr over))) ↦
                  inr (inr (inr (inr (omega (arith, over, sums, counted)))))
            ])
            (events-IsSettled f tokens budget used components rest events _
              (fill-IsPlaced f tokens budget used candidates)),
      )

  In-append_left : (x : EventRow W) (xs ys : List (EventRow W)) → In x xs → In x (xs ++ ys)
  In-append_left x [] ys h = absurd h
  In-append_left x (y ∷ xs) ys (inl e) = inl e
  In-append_left x (y ∷ xs) ys (inr h) = inr (In-append_left x xs ys h)

  -- If the mandatory events of the list, archived ones left out, fit their limit, then every one of
  -- them is selected.
  pub greedy_fill-mandatory :
      (scaled : ℕ → ℕ → ℕ) (events : List (EventRow W)) (budget reserved : ℕ)
      → total f tokens (select (is_mandatory f tokens) (select (is_live f tokens) events))
        ≤ scaled 500 budget
      → All
          (λ r. In r (greedy_fill f tokens scaled events budget reserved))
          (select (is_mandatory f tokens) (select (is_live f tokens) events))
  unfolding greedy_fill
  greedy_fill-mandatory scaled events budget reserved fits =
      let mandatory = select (is_mandatory f tokens) (select (is_live f tokens) events) in
      let whole : mandatory_of f tokens (scaled 500 budget) events ≡ mandatory =
        unfold mandatory_of in ground arith in
      All-map (λ r. In r mandatory) _ mandatory (λ r h. rw whole (In-append_left r mandatory _ h))
        (All-In mandatory)

  live-rows :
      (events : List (EventRow W))
      → All (λ r. In r events × (r.archived ≡ false)) (select (is_live f tokens) events)
  live-rows events =
      All-both (λ r. In r events) (λ r. r.archived ≡ false) _
        (All-select (λ r. In r events) (is_live f tokens) events (All-In events))
        (All-map (λ r. is_live f tokens r ≡ true) (λ r. r.archived ≡ false) _
          (λ r h. unfold is_live in ground arith) (select-All (is_live f tokens) events))

  -- Every selected event is one of the list that is not archived.
  pub greedy_fill-live :
      (scaled : ℕ → ℕ → ℕ) (events : List (EventRow W)) (budget reserved : ℕ)
      → All
          (λ r. In r events × (r.archived ≡ false))
          (greedy_fill f tokens scaled events budget reserved)
  unfolding greedy_fill
  greedy_fill-live scaled events budget reserved =
      let P : EventRow W → Type 0 = λ r. In r events × (r.archived ≡ false) in
      let live = live-rows events in
      append-All P _ _
        (mandatory-All P (scaled 500 budget) events (All-select P (is_mandatory f tokens) _ live))
        (append-All P _ _
          (components-All P (scaled 150 budget) events
            (All-select P (is_component f tokens) _ live))
          (fill-All f tokens P budget _ _ (
            sort-All P _ _ (
              All-select P (is_other f tokens (components_of f tokens (scaled 150 budget) events).0)
                _ live))))
