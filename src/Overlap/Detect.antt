-- ===== src/Overlap/Detect.antt =====
-- delta/supersede.py: the supersession test of two descriptions and of two events, and the search
-- of the table by it. `derive_subject` of utils/subject.py is an argument.
use cognikernel.Prelude.{
  ℕ, ◌≡◌, refl, Bool, not, ◌&&◌, ◌||◌, List, [], ◌∷◌, if◌then◌else◌, arith, codes, str_eq, is_empty,
  is_some, select, same_text, same_text_comm, Unicode,
}
use mathlib.Core.List
use cognikernel.Events.Row.{same_type, Event, EventRow}
use cognikernel.Merge.Supersede.{is_supersession_type}
use cognikernel.Overlap.{
  at_least, subject_match_min_jaccard, jaccard_similarity, descriptions_overlap,
}
use cognikernel.Overlap.Words.{jaccard_similarity_comm}
use cognikernel.Overlap.Prefilter.{descriptions_overlap_comm}

module _ (u : Unicode) (derive_subject : List ℕ → List ℕ) where
  unfoldable pub subject_supersedes : List ℕ → List ℕ → Bool
  subject_supersedes desc_a desc_b =
      let sa = derive_subject desc_a in
      not (is_empty sa)
      && same_text sa (derive_subject desc_b)
      && at_least subject_match_min_jaccard (jaccard_similarity u desc_a desc_b)

  unfoldable pub supersedes : List ℕ → List ℕ → Bool
  supersedes desc_a desc_b =
      descriptions_overlap u desc_a desc_b || subject_supersedes desc_a desc_b

  unfoldable pub events_overlap : {W : Type 0} → Event W → Event W → Bool
  unfolding same_type
  events_overlap a b =
      same_type a.event_type b.event_type
      && supersedes (codes a.payload.description) (codes b.payload.description)

  -- the WHERE of the SELECT
  unfoldable pub is_active_peer : {W : Type 0} → Event W → EventRow W → Bool
  unfolding same_type
  is_active_peer e r =
      str_eq r.project_id e.project_id
      && same_type r.event_type e.event_type
      && not r.archived
      && not (is_some r.superseded_by)
      && not (str_eq r.content_hash e.content_hash)

  unfoldable pub detect_supersession : {W : Type 0} → Event W → List (EventRow W) → List ℕ
  unfolding is_active_peer is_supersession_type
  detect_supersession e rows =
      if is_supersession_type e.event_type
      then List.map (λ r. r.id)
          (select (λ r. supersedes (codes e.payload.description) (codes r.payload.description))
            (select (is_active_peer e) rows))
      else []

  subject_supersedes_comm : (s t : List ℕ) → subject_supersedes s t ≡ subject_supersedes t s
  unfolding subject_supersedes
  subject_supersedes_comm s t =
      rw (jaccard_similarity_comm u s t, same_text_comm (derive_subject s) (derive_subject t))
        (same_subject (derive_subject s) (derive_subject t) _)
    where
      same_subject :
          (a b : List ℕ) (c : Bool)
          → (not (is_empty a) && same_text b a && c) ≡ (not (is_empty b) && same_text b a && c)
      same_subject [] [] c = refl
      same_subject [] (y ∷ b) c = unfold same_text in refl
      same_subject (x ∷ a) [] c = unfold same_text in refl
      same_subject (x ∷ a) (y ∷ b) c = refl

  -- Two events overlap whichever of them comes first, under every subject derivation.
  pub events_overlap_comm : {W : Type 0} (a b : Event W) → events_overlap a b ≡ events_overlap b a
  unfolding events_overlap supersedes same_type
  events_overlap_comm a b =
      let s = codes a.payload.description in
      let t = codes b.payload.description in
      rw (descriptions_overlap_comm u s t, subject_supersedes_comm s t) (ground arith)
