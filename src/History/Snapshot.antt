-- ===== src/History/Snapshot.antt =====
-- storage/provenance.py: `claims_as_of` tells what the table held at a time.
use cognikernel.Prelude.{
  ℕ, ◌≤◌, ◌<◌, ◌≡◌, refl, ap, ◌∙◌, ◌⊎◌, inl, inr, String, true, false, not, ◌&&◌, none, some, List,
  [], ◌∷◌, arith, ltb, leb, str_eq, is_some, Bool-cases, All, select,
}
use mathlib.Core.List
use cognikernel.Events.Row.{EventRow, EventStore}
use cognikernel.History.{
  is_live, is_projected, get_events_for_projection, is_past, is_ended, has_unrecorded_end,
  is_created_by, claims_as_of,
}
use cognikernel.History.Later.{IsLater, Evolved, created, kept}
use cognikernel.History.Course.{History, History-Evolved}

-- A row that the table may hold at a time: with an id of AUTOINCREMENT, created by then, and with each
-- of its ends recorded by then.
pub record IsStamped {W : Type 0} (at_ms : ℕ) (r : EventRow W) : Type 0 where
  pub numbered : 0 < r.id
  pub existing : r.created_at ≤ at_ms
  pub supersession :
      (r.superseded_by ≡ none)
      ⊎ ((by : ℕ) × (r.superseded_by ≡ some by)
          × ((t : ℕ) × (r.superseded_at ≡ some t) × (t ≤ at_ms)))
  pub archiving :
      (r.archived ≡ false)
      ⊎ ((r.archived ≡ true) × ((t : ℕ) × (r.archived_at ≡ some t) × (t ≤ at_ms)))

module _ {W : Type 0} (at_ms : ℕ) where
  -- one of the two ends, as it is later and as it was
  superseded-past :
      (r r' : EventRow W)
      → IsStamped at_ms r
      → IsLater at_ms r r'
      → ((is_some r'.superseded_by && is_past at_ms r'.superseded_at) ≡ is_some r.superseded_by)
        × ((is_some r'.superseded_by && not (is_some r'.superseded_at)) ≡ false)
  unfolding is_past
  superseded-past r r' k l = elim k.supersession [
    | inl n ↦ elim l.supersession [
      | inl e ↦ rw (e.0, n) (refl, refl)
      | inr (n', (by, b), (t, q, late)) ↦ rw (n, b, q) (ground arith, refl)
    ]
    | inr (by, n, (t, q, past)) ↦ elim l.supersession [
      | inl e ↦ rw (e.0, e.1, n, q) (ground arith, refl)
      | inr e ↦ let never = e.0 in cc
    ]
  ]

  archived-past :
      (r r' : EventRow W)
      → IsStamped at_ms r
      → IsLater at_ms r r'
      → ((r'.archived && is_past at_ms r'.archived_at) ≡ r.archived)
        × ((r'.archived && not (is_some r'.archived_at)) ≡ false)
  unfolding is_past
  archived-past r r' k l = elim k.archiving [
    | inl n ↦ elim l.archiving [
      | inl e ↦ rw (e.0, n) (refl, refl)
      | inr (n', b, (t, q, late)) ↦ rw (n, b, q) (ground arith, refl)
    ]
    | inr (n, (t, q, past)) ↦ elim l.archiving [
      | inl e ↦ rw (e.0, e.1, n, q) (ground arith, refl)
      | inr e ↦ let never = e.0 in cc
    ]
  ]

  -- what `claims_as_of` reads of a later row
  row-past :
      (project : String) (r r' : EventRow W)
      → IsStamped at_ms r
      → IsLater at_ms r r'
      → (is_created_by project at_ms r' ≡ str_eq r.project_id project)
        × (is_ended at_ms r' ≡ not (is_live r))
        × (has_unrecorded_end r' ≡ false)
        × (is_projected project 0 r ≡ (str_eq r.project_id project && is_live r))
  unfolding is_created_by is_ended has_unrecorded_end is_projected is_live
  row-past project r r' k l =
      let s = superseded-past r r' k l in
      let a = archived-past r r' k l in
      let here : leb r.created_at at_ms ≡ true = ground (arith, k.existing) in
      let there : ltb 0 r.id ≡ true = ground (arith, k.numbered) in
      (
        rw (l.same_project, l.same_time, here) (ground arith),
        rw (s.0, a.0) (ground arith),
        rw (s.1, a.1) refl,
        rw there (ground arith),
      )

  late-unseen :
      (project : String) (rows : List (EventRow W))
      → All (λ r. at_ms < r.created_at) rows
      → select (is_created_by project at_ms) rows ≡ []
  unfolding select is_created_by
  late-unseen project [] h = refl
  late-unseen project (r ∷ rows) h = ground (arith, h.0, late-unseen project rows h.1)

  abbrev pub ids : List (EventRow W) → List ℕ
  ids = List.map (λ r. r.id)

  abbrev pub ended_then : String → List (EventRow W) → List (EventRow W)
  ended_then project = select (λ r. str_eq r.project_id project && not (is_live r))

  -- what the later table tells of the time, beside what the table held
  record Tells (project : String) (rows rows' : List (EventRow W)) : Type 0 where
    live :
        ids (
          select
            (λ r. not (is_ended at_ms r) && not (has_unrecorded_end r))
            (select (is_created_by project at_ms) rows'))
        ≡ ids (select (is_projected project 0) rows)
    ended :
        ids (select (is_ended at_ms) (select (is_created_by project at_ms) rows'))
        ≡ ids (ended_then project rows)
    unknown :
        select
          (λ r. not (is_ended at_ms r) && has_unrecorded_end r)
          (select (is_created_by project at_ms) rows')
        ≡ []

  kept-Tells :
      (project : String) (r r' : EventRow W) (rows rows' : List (EventRow W))
      → (is_created_by project at_ms r' ≡ str_eq r.project_id project)
        × (is_ended at_ms r' ≡ not (is_live r))
        × (has_unrecorded_end r' ≡ false)
        × (is_projected project 0 r ≡ (str_eq r.project_id project && is_live r))
      → r'.id ≡ r.id
      → Tells project rows rows'
      → Tells project (r ∷ rows) (r' ∷ rows')
  unfolding select
  kept-Tells project r r' rows rows' (a, b, c, d) same tells =
      elim (Bool-cases (str_eq r.project_id project)) [
        | inr o ↦ record {
          live = rw (a, d, o) tells.live;
          ended = rw (a, o) tells.ended;
          unknown = rw (a, o) tells.unknown;
        }
        | inl o ↦ elim (Bool-cases (is_live r)) [
          | inl p ↦ record {
            live =
                rw (a, d, o, b, c, p)
                  (ap (λ is. r'.id ∷ is) tells.live
                    ∙ ap (λ i. i ∷ ids (select (is_projected project 0) rows)) same);
            ended = rw (a, o, b, p) tells.ended;
            unknown = rw (a, o, b, c, p) tells.unknown;
          }
          | inr p ↦ record {
            live = rw (a, d, o, b, c, p) tells.live;
            ended =
                rw (a, o, b, p)
                  (ap (λ is. r'.id ∷ is) tells.ended
                    ∙ ap (λ i. i ∷ ids (ended_then project rows)) same);
            unknown = rw (a, o, b, c, p) tells.unknown;
          }
        ]
      ]

  Evolved-Tells :
      (project : String) {rows rows' : List (EventRow W)}
      → Evolved at_ms rows rows'
      → All (IsStamped at_ms) rows
      → Tells project rows rows'
  unfolding select
  Evolved-Tells project (created {rows = rows'} late) k =
      let unseen = late-unseen project rows' late in
      record { live = rw unseen refl; ended = rw unseen refl; unknown = rw unseen refl }
  Evolved-Tells project (kept {r} {r'} {rows} {rows'} l e) k =
      kept-Tells project r r' rows rows' (row-past project r r' k.0 l) l.same_id
        (Evolved-Tells project e k.1)

  -- `claims_as_of` tells of a time, from any later table, exactly what the table of that time held, by
  -- ids and in order: the live claims are the events that `get_events_for_projection` read then,
  -- the ended ones are the other events of the project, and none is unknown. The table of the time has
  -- the times of its ends recorded, none of them later; after it come any superseding, archiving,
  -- decay by `apply_decay_pass`, change of weight and insertion, each at a later time, where no claim
  -- is superseded or archived twice, and none comes back from the archive.
  pub claims_as_of-snapshot :
      (project : String) (s t : EventStore W)
      → All (IsStamped at_ms) s.events
      → History at_ms s t
      → (ids (claims_as_of project at_ms t).live ≡ ids (get_events_for_projection project 0 s))
        × (ids (claims_as_of project at_ms t).ended ≡ ids (ended_then project s.events))
        × ((claims_as_of project at_ms t).unknown ≡ [])
  unfolding claims_as_of get_events_for_projection
  claims_as_of-snapshot project s t k h =
      let tells = Evolved-Tells project (History-Evolved at_ms h) k in
      (tells.live, tells.ended, tells.unknown)
