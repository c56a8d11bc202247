-- ===== src/History/Tests.antt =====
-- storage/provenance.py: a table of two claims, and the theorem at it.
use cognikernel.Prelude.{List, count_where, sort_down, insert_sorted, is_some}
use cognikernel.History.Chain.{
  max_chain, is_link_to, push_link, push_replaced, is_seen, walk_links, n_replaced, rounds_left,
  is_older, supersession_chain,
}
use cognikernel.Prelude.{true}
use cognikernel.History.Connected.{supersession_chain-connected}
use cognikernel.History.Walk.{supersession_chain-ends}
use cognikernel.Prelude.{
  ℕ, ◌≡◌, refl, none, some, [], ◌∷◌, arith, inl, select, update_where, find_key, any,
}
use cognikernel.Events.Row.{decision, EventRow, EventStore}
use cognikernel.Events.Links.{
  set_superseded_by, superseded_row, closes_cycle, max_cycle_walk, link, superseded_of,
  mark_archived,
}
use cognikernel.History.{
  is_live, is_projected, get_events_for_projection, get_events_by_session, get_events_by_type,
  get_max_event_id, max_id, is_past, is_ended, has_unrecorded_end, is_created_by, earliest_of,
  earliest, claims_as_of,
}
use cognikernel.History.Course.{History, unchanged, superseding, archiving}
use cognikernel.History.Snapshot.{IsStamped, ids, ended_then, claims_as_of-snapshot}
use cognikernel.Samples.{event, row, store}

program : Unit {0}
unfolding select update_where find_key any set_superseded_by superseded_row closes_cycle
    max_cycle_walk link superseded_of mark_archived is_live is_projected get_events_for_projection
    get_events_by_session get_events_by_type get_max_event_id max_id is_past is_ended
    has_unrecorded_end is_created_by earliest_of earliest claims_as_of
program = tt

abbrev tabs : EventRow ℕ
tabs = row 1 none (event decision "use tabs" "h1")

abbrev spaces : EventRow ℕ
spaces = row 2 none (event decision "use spaces" "h2")

-- both claims are live at time 150
abbrev then_ : EventStore ℕ
then_ = store (tabs ∷ spaces ∷ []) 3

-- at time 200 the second replaces the first, and at 300 it is archived
abbrev now : EventStore ℕ
now = mark_archived 2 300 (set_superseded_by 1 2 200 (some "lexical") then_).0

to_now : History 150 then_ now
unfolding set_superseded_by superseded_row closes_cycle max_cycle_walk link find_key superseded_of
    update_where any
to_now =
    archiving 2 300
      (superseding 1 2 200 (some "lexical") unchanged (omega arith)
        ((λ e. refl), ((λ e. refl), tt)))
      (omega arith) ((λ e. refl), ((λ e. refl), tt))

IsStamped-tabs : IsStamped 150 tabs
IsStamped-tabs = record {
  numbered = omega arith;
  existing = omega arith;
  supersession = inl refl;
  archiving = inl refl;
}

IsStamped-spaces : IsStamped 150 spaces
IsStamped-spaces = record {
  numbered = omega arith;
  existing = omega arith;
  supersession = inl refl;
  archiving = inl refl;
}

lives : ids 150 (claims_as_of "p" 250 now).live ≡ 2 ∷ []
unfolding program
lives = refl

ends : (claims_as_of "p" 250 now).first_recorded_end ≡ some 200
unfolding program
ends = refl

newest : get_max_event_id "p" now ≡ 2
unfolding program
newest = refl

claims_as_of-snapshot_example :
    (ids 150 (claims_as_of "p" 150 now).live ≡ ids 150 (get_events_for_projection "p" 0 then_))
    × (ids 150 (claims_as_of "p" 150 now).ended ≡ ids 150 (ended_then 150 "p" then_.events))
    × ((claims_as_of "p" 150 now).unknown ≡ [])
claims_as_of-snapshot_example =
    claims_as_of-snapshot 150 "p" then_ now (IsStamped-tabs, (IsStamped-spaces, tt)) to_now

-- two events that replace each other, a third that the first replaced, and a fourth
abbrev tabs_again : EventRow ℕ
tabs_again = row 1 (some 2) (event decision "use tabs" "h1")

abbrev spaces_again : EventRow ℕ
spaces_again = row 2 (some 1) (event decision "use spaces" "h2")

abbrev neither : EventRow ℕ
neither = row 3 (some 1) (event decision "use neither" "h3")

abbrev circle : EventStore ℕ
circle =
    store (tabs_again ∷ spaces_again ∷ neither ∷ row 4 none (event decision "use mysql" "h4") ∷ [])
      5

supersession_chain-ends_example :
    (chain : List (EventRow ℕ)) × (supersession_chain 3 circle ≡ some chain)
    × (is_seen 3 chain ≡ is_some (find_key (λ (r : EventRow ℕ). r.id) 3 circle.events))
supersession_chain-ends_example = supersession_chain-ends 3 circle

circle_chain : supersession_chain 3 circle ≡ some (tabs_again ∷ spaces_again ∷ neither ∷ [])
unfolding program max_chain is_link_to push_link push_replaced is_seen walk_links n_replaced
    rounds_left is_older supersession_chain count_where sort_down insert_sorted
circle_chain = refl

supersession_chain-connected_example : is_seen 2 (tabs_again ∷ spaces_again ∷ neither ∷ []) ≡ true
unfolding find_key max_chain is_seen any is_link_to
supersession_chain-connected_example =
    supersession_chain-connected 3 circle (tabs_again ∷ spaces_again ∷ neither ∷ []) tabs_again
      spaces_again circle_chain refl refl refl refl refl
