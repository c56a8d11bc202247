-- ===== src/History/Chain.antt =====
-- storage/provenance.py: supersession_chain, the events that one replaced or was replaced by.
use cognikernel.Prelude.{
  ℕ, zero, suc, ◌+◌, Bool, true, false, ◌&&◌, ◌||◌, Option, none, some, List, [], ◌∷◌, ltb, ◌==◌,
  if◌then◌else◌, any, count_where, find_key, sort_down, length,
}
use mathlib.Core.Option
use mathlib.Core.Option.{some-injective}
use cognikernel.Events.Row.{EventRow, EventStore}

-- _MAX_CHAIN
unfoldable pub max_chain : ℕ
max_chain = 10_000

unfoldable pub is_link_to : ℕ → Option ℕ → Bool
is_link_to id none = false
is_link_to id (some by_id) = by_id == id

-- `frontier` is a stack, and its last item is the first of the list.
unfoldable pub push_link : Option ℕ → List ℕ → List ℕ
push_link none stack = stack
push_link (some id) stack = id ∷ stack

module _ {W : Type 0} where
  unfoldable pub push_replaced : ℕ → List (EventRow W) → List ℕ → List ℕ
  unfolding is_link_to
  push_replaced id [] stack = stack
  push_replaced id (r ∷ rows) stack =
      push_replaced id rows (if is_link_to id r.superseded_by then r.id ∷ stack else stack)

  unfoldable pub is_seen : ℕ → List (EventRow W) → Bool
  is_seen id seen = any (λ r. r.id == id) seen

  -- The loop, which has `n` rounds left: the events seen, the last first.
  unfoldable pub walk_links :
      ℕ → List (EventRow W) → List ℕ → List (EventRow W) → Option (List (EventRow W))
  unfolding is_seen push_replaced push_link max_chain
  walk_links zero rows stack seen = none
  walk_links (suc n) rows [] seen = some seen
  walk_links (suc n) rows (current ∷ stack) seen = elim (ltb (length seen) max_chain) [
    | false ↦ some seen
    | true ↦ elim (is_seen current seen) [
      | true ↦ walk_links n rows stack seen
      | false ↦ elim (find_key (λ (r : EventRow W). r.id) current rows) [
        | none ↦ walk_links n rows stack seen
        | some r ↦
            walk_links n rows (push_replaced current rows (push_link r.superseded_by stack))
              (r ∷ seen)
      ]
    ]
  ]

  -- the replaced events of an event
  unfoldable pub n_replaced : ℕ → List (EventRow W) → ℕ
  unfolding is_link_to
  n_replaced id rows = count_where (λ r. is_link_to id r.superseded_by) rows

  -- the rounds that the rows `some_rows` that are not seen can still cause
  unfoldable pub rounds_left : List (EventRow W) → List (EventRow W) → List (EventRow W) → ℕ
  unfolding is_seen n_replaced
  rounds_left rows seen [] = 0
  rounds_left rows seen (r ∷ some_rows) =
      (if is_seen r.id seen then 0 else 2 + n_replaced r.id rows) + rounds_left rows seen some_rows

  -- created_at, and then the id
  unfoldable pub is_older : EventRow W → EventRow W → Bool
  is_older a b = ltb a.created_at b.created_at || (a.created_at == b.created_at && ltb a.id b.id)

  unfoldable pub supersession_chain : ℕ → EventStore W → Option (List (EventRow W))
  unfolding walk_links rounds_left is_older
  supersession_chain event_id s =
      let rounds = suc (suc (rounds_left s.events [] s.events)) in
      Option.map (sort_down (λ a b. is_older b a)) (walk_links rounds s.events (event_id ∷ []) [])
