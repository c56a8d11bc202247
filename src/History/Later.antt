-- ===== src/History/Later.antt =====
-- storage/provenance.py: how the rows of a table change after a time.
use cognikernel.Prelude.{
  ℕ, ◌<◌, ◌≡◌, refl, sym, ◌∙◌, ◌⊎◌, inl, inr, String, Bool, true, false, Option, none, some, List,
  [], ◌∷◌, ◌++◌, Bool-cases, All, All-append, update_where,
}
use cognikernel.Events.Row.{Event, EventRow}
use cognikernel.Events.Links.{superseded_row}

-- an end that was recorded after the time
abbrev pub IsAfter : ℕ → Option ℕ → Type 0
IsAfter at_ms recorded = (t : ℕ) × (recorded ≡ some t) × (at_ms < t)

module _ {W : Type 0} (at_ms : ℕ) where
  -- A row and what became of it after the time: it keeps its identity, and each of its two ends is
  -- as it was, or came after the time.
  pub record IsLater (r r' : EventRow W) : Type 0 where
    pub same_id : r'.id ≡ r.id
    pub same_project : r'.project_id ≡ r.project_id
    pub same_time : r'.created_at ≡ r.created_at
    pub supersession :
        ((r'.superseded_by ≡ r.superseded_by) × (r'.superseded_at ≡ r.superseded_at))
        ⊎ ((r.superseded_by ≡ none)
            × ((by : ℕ) × (r'.superseded_by ≡ some by))
            × IsAfter at_ms r'.superseded_at)
    pub archiving :
        ((r'.archived ≡ r.archived) × (r'.archived_at ≡ r.archived_at))
        ⊎ ((r.archived ≡ false) × (r'.archived ≡ true) × IsAfter at_ms r'.archived_at)

  -- A table and what became of it: its rows, and rows that were created later.
  pub data Evolved : List (EventRow W) → List (EventRow W) → Type 0 where
    created : {rows : List (EventRow W)} → All (λ r. at_ms < r.created_at) rows → Evolved [] rows
    kept :
        {r r' : EventRow W} {rows rows' : List (EventRow W)}
        → IsLater r r'
        → Evolved rows rows'
        → Evolved (r ∷ rows) (r' ∷ rows')

  pub IsLater-self : (r : EventRow W) → IsLater r r
  IsLater-self r = record {
    same_id = refl;
    same_project = refl;
    same_time = refl;
    supersession = inl (refl, refl);
    archiving = inl (refl, refl);
  }

  pub Evolved-self : (rows : List (EventRow W)) → Evolved rows rows
  Evolved-self [] = created tt
  Evolved-self (r ∷ rows) = kept (IsLater-self r) (Evolved-self rows)

  -- An UPDATE that leaves rows with later ones, where the rows are.
  pub Evolved-update_where :
      (p : EventRow W → Bool) (f : EventRow W → EventRow W) {rows rows' : List (EventRow W)}
      → Evolved rows rows'
      → ((r : EventRow W) → (f r).created_at ≡ r.created_at)
      → All (λ r'. p r' ≡ true → (r : EventRow W) → IsLater r r' → IsLater r (f r')) rows'
      → Evolved rows (update_where p f rows')
  unfolding update_where
  Evolved-update_where p f (created {rows = rows'} h) keep step = created (go rows' h)
    where
      go :
          (rows' : List (EventRow W))
          → All (λ r. at_ms < r.created_at) rows'
          → All (λ r. at_ms < r.created_at) (update_where p f rows')
      go [] h = tt
      go (r ∷ rows') h = elim (Bool-cases (p r)) [
        | inl t ↦ rw (t, keep r) (h.0, go rows' h.1)
        | inr t ↦ rw t (h.0, go rows' h.1)
      ]
  Evolved-update_where p f (kept {r} {r'} l e) keep step = elim (Bool-cases (p r')) [
    | inl t ↦ rw t (kept (step.0 t r l) (Evolved-update_where p f e keep step.1))
    | inr t ↦ rw t (kept l (Evolved-update_where p f e keep step.1))
  ]

  pub Evolved-append :
      {rows rows' : List (EventRow W)} (r : EventRow W)
      → Evolved rows rows'
      → at_ms < r.created_at
      → Evolved rows (rows' ++ r ∷ [])
  Evolved-append r (created {rows = rows'} h) late =
      created (All-append (λ r. at_ms < r.created_at) rows' (r ∷ []) h (late, tt))
  Evolved-append r (kept l e) late = kept l (Evolved-append r e late)

  pub superseded-IsLater :
      (by now : ℕ) (reason : Option String) (r r' : EventRow W)
      → at_ms < now
      → r'.superseded_by ≡ none
      → IsLater r r'
      → IsLater r (superseded_row by now reason r')
  unfolding superseded_row
  superseded-IsLater by now reason r r' late free l = record {
    same_id = l.same_id;
    same_project = l.same_project;
    same_time = l.same_time;
    supersession = inr (was_free, (by, refl), (now, refl, late));
    archiving = l.archiving;
  }
    where
      was_free : r.superseded_by ≡ none
      was_free = elim l.supersession [ inl e ↦ sym e.0 ∙ free | inr e ↦ e.0 ]

  pub archived-IsLater :
      (now : ℕ) (r r' : EventRow W)
      → at_ms < now
      → r'.archived ≡ false
      → IsLater r r'
      → IsLater r (record r' { archived = true; archived_at = some now })
  archived-IsLater now r r' late open_claim l = record {
    same_id = l.same_id;
    same_project = l.same_project;
    same_time = l.same_time;
    supersession = l.supersession;
    archiving = inr (was_open, refl, (now, refl, late));
  }
    where
      was_open : r.archived ≡ false
      was_open = elim l.archiving [ inl e ↦ sym e.0 ∙ open_claim | inr e ↦ e.0 ]

  -- a change of the event alone, which keeps its project and time
  pub event-IsLater :
      (e : Event W) (r r' : EventRow W)
      → e.project_id ≡ r'.project_id
      → e.created_at ≡ r'.created_at
      → IsLater r r'
      → IsLater r (record r' { event = e })
  event-IsLater e r r' same_project same_time l = record {
    same_id = l.same_id;
    same_project = same_project ∙ l.same_project;
    same_time = same_time ∙ l.same_time;
    supersession = l.supersession;
    archiving = l.archiving;
  }
