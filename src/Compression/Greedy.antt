-- ===== src/Compression/Greedy.antt =====
-- compression/greedy.py: the selection of events for a token budget. The token estimate and the
-- limits, which the code scales in floating point, are parameters. The events are distinct rows, which
-- their ids tell apart.
use cognikernel.Prelude.{
  sort_down, take, ℕ, ◌+◌, String, Bool, not, ◌&&◌, ◌||◌, List, [], ◌∷◌, ◌++◌, leb, ltb, ◌==◌,
  if◌then◌else◌, str_eq, select, any,
}
use cognikernel.Events.Row.{Floats, EventRow, component_status, same_type}
use cognikernel.Merge.Decay.{is_protected}

-- _AUTHORITY_RANK, with its default
unfoldable pub authority_rank : String → ℕ
authority_rank a =
    if str_eq a "user_stated"
    then 3
    else if str_eq a "assistant_answer_to_user_question"
    then 1
    else if str_eq a "inferred_from_code"
    then 0
    else 2

module _ {W : Type 0} (f : Floats W) (tokens : EventRow W → ℕ) where
  unfoldable pub is_mandatory : EventRow W → Bool
  is_mandatory r = is_protected r.event_type || str_eq r.payload.authority "user_stated"

  abbrev lighter : EventRow W → EventRow W → Bool
  lighter a b = f.lt a.weight b.weight

  -- the order of the keys (rank, weight)
  unfoldable pub ranks_lower : EventRow W → EventRow W → Bool
  unfolding authority_rank
  ranks_lower a b =
      let ra = authority_rank a.payload.authority in
      let rb = authority_rank b.payload.authority in ltb ra rb || (ra == rb && lighter a b)

  -- sum(estimate_tokens(e) for e in events)
  unfoldable pub total : List (EventRow W) → ℕ
  total [] = 0
  total (r ∷ rows) = tokens r + total rows

  -- the loops that keep what still fits, and the tokens used
  unfoldable pub fill : ℕ → ℕ → List (EventRow W) → List (EventRow W) × ℕ
  fill limit used [] = ([], used)
  fill limit used (r ∷ rows) =
      let (kept, n) = fill limit (used + tokens r) rows in
      if leb (used + tokens r) limit then (r ∷ kept, n) else fill limit used rows

  -- `if not kept and mandatory: kept = [mandatory[0]]`
  unfoldable pub or_first : List (EventRow W) → List (EventRow W) → List (EventRow W)
  or_first (k ∷ kept) rows = k ∷ kept
  or_first [] [] = []
  or_first [] (r ∷ rows) = r ∷ []

  unfoldable pub compress_mandatory : List (EventRow W) → ℕ → List (EventRow W)
  unfolding sort_down ranks_lower fill or_first total
  compress_mandatory rows target =
      let sorted = sort_down ranks_lower rows in
      if leb (total rows) target then rows else or_first (fill target 0 sorted).0 sorted

  -- _seen_paths[path] = e, where the path is new or the event heavier
  unfoldable pub see : EventRow W → List (EventRow W) → List (EventRow W)
  see r [] = r ∷ []
  see r (s ∷ seen) =
      if str_eq s.payload.path r.payload.path
      then (if lighter s r then r ∷ seen else s ∷ seen)
      else s ∷ see r seen

  unfoldable pub see_all : List (EventRow W) → List (EventRow W) → List (EventRow W)
  unfolding see
  see_all [] seen = seen
  see_all (r ∷ rows) seen = see_all rows (see r seen)

  unfoldable pub is_component : EventRow W → Bool
  unfolding is_mandatory
  is_component r = same_type r.event_type component_status && not (is_mandatory r)

  unfoldable pub is_live : EventRow W → Bool
  is_live r = not r.archived

  unfoldable pub mandatory_of : ℕ → List (EventRow W) → List (EventRow W)
  unfolding is_mandatory total compress_mandatory is_live
  mandatory_of limit events =
      let mandatory = select is_mandatory (select is_live events) in
      if ltb limit (total mandatory) then compress_mandatory mandatory limit else mandatory

  -- the components that are guaranteed a place, and their tokens
  unfoldable pub components_of : ℕ → List (EventRow W) → List (EventRow W) × ℕ
  unfolding is_component see_all sort_down fill is_live
  components_of limit events =
      fill limit 0
        (take 5 (sort_down lighter (see_all (select is_component (select is_live events)) [])))

  unfoldable pub is_other : List (EventRow W) → EventRow W → Bool
  unfolding is_mandatory
  is_other components r = not (is_mandatory r) && not (any (λ c. c.id == r.id) components)

  unfoldable pub greedy_fill : (ℕ → ℕ → ℕ) → List (EventRow W) → ℕ → ℕ → List (EventRow W)
  unfolding mandatory_of components_of fill sort_down is_other is_live
  greedy_fill scaled events budget reserved =
      let mandatory = mandatory_of (scaled 500 budget) events in
      let (components, n) = components_of (scaled 150 budget) events in
      let candidates = select (is_other components) (select is_live events) in
      mandatory
      ++ (components
          ++ (fill budget (total mandatory + n + reserved) (sort_down lighter candidates)).0)
