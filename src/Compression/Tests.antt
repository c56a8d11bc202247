-- ===== src/Compression/Tests.antt =====
-- compression/greedy.py: a small selection, and the theorems at it.
use cognikernel.Prelude.{
  insert_sorted, sort_down, take, ℕ, ◌+◌, ◌≡◌, ◌≤◌, ◌<◌, ◌==◌, ◌⊎◌, refl, true, false, none, List,
  [], ◌∷◌, ◌++◌, arith, select, any, All, In,
}
use cognikernel.Events.Row.{decision, constraint_hard, component_status, EventRow, same_type}
use cognikernel.Merge.Decay.{is_protected}
use cognikernel.Compression.Greedy.{
  authority_rank, ranks_lower, total, fill, or_first, compress_mandatory, see, see_all, is_live,
  is_component, is_mandatory, is_other, mandatory_of, components_of, greedy_fill,
}
use cognikernel.Compression.Chosen.{IsMandatory}
use cognikernel.Compression.Budget.{greedy_fill-limits, greedy_fill-mandatory, greedy_fill-live}
use cognikernel.Samples.{floats, event, row}

program : Unit {0}
unfolding select any same_type is_protected take insert_sorted sort_down authority_rank ranks_lower
    total fill or_first compress_mandatory see see_all is_live is_component is_mandatory is_other
    mandatory_of components_of greedy_fill
program = tt

abbrev rule : EventRow ℕ
rule = row 1 none (event constraint_hard "never log keys" "h1")

abbrev old : EventRow ℕ
old = record (row 2 none (event decision "use mysql" "h2")) { archived = true }

abbrev light : EventRow ℕ
light = row 3 none (record (event decision "use tabs" "h3") { weight = 4 })

abbrev heavy : EventRow ℕ
heavy = row 4 none (event decision "use postgres" "h4")

abbrev events : List (EventRow ℕ)
events = light ∷ rule ∷ old ∷ heavy ∷ []

-- every event costs 10 tokens, and each limit is the whole budget
abbrev cost : EventRow ℕ → ℕ
cost r = 10

abbrev whole : ℕ → ℕ → ℕ
whole part budget = budget

selects : greedy_fill floats cost whole events 25 0 ≡ rule ∷ heavy ∷ []
unfolding program
selects = refl

greedy_fill-limits_example :
    (mandatory : List (EventRow ℕ)) × (components : List (EventRow ℕ)) × (rest : List (EventRow ℕ))
    × (greedy_fill floats cost whole events 25 0 ≡ mandatory ++ (components ++ rest))
    × All IsMandatory mandatory
    × All (λ r. r.event_type ≡ component_status) components
    × ((total floats cost mandatory ≤ 25) ⊎ ((r : EventRow ℕ) × (mandatory ≡ r ∷ [])))
    × (total floats cost components ≤ 25)
    × ((rest ≡ []) ⊎ (total floats cost (mandatory ++ (components ++ rest)) + 0 ≤ 25))
    × All
        (λ r.
          (r.archived ≡ true)
          ⊎ IsMandatory r
          ⊎ (any (λ c. c.id == r.id) components ≡ true)
          ⊎ In r rest
          ⊎ (25 < total floats cost (mandatory ++ (components ++ rest)) + 0 + cost r))
        events
greedy_fill-limits_example = greedy_fill-limits floats cost whole events 25 0

rules-fit :
    total floats cost (select (is_mandatory floats cost) (select (is_live floats cost) events)) ≤ 25
unfolding program
rules-fit = omega arith

greedy_fill-mandatory_example :
    All
      (λ r. In r (greedy_fill floats cost whole events 25 0))
      (select (is_mandatory floats cost) (select (is_live floats cost) events))
greedy_fill-mandatory_example = greedy_fill-mandatory floats cost whole events 25 0 rules-fit

greedy_fill-live_example :
    All (λ r. In r events × (r.archived ≡ false)) (greedy_fill floats cost whole events 25 0)
greedy_fill-live_example = greedy_fill-live floats cost whole events 25 0
