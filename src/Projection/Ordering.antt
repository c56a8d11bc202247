-- ===== src/Projection/Ordering.antt =====
-- injection/ordering.py: the sections of a prompt, with the routing of storage/sections.py and the
-- subjects of extraction/authority.py. The test for a session handoff is an argument.
use cognikernel.Prelude.{
  ℕ, String, Bool, not, ◌&&◌, ◌||◌, Option, none, some, List, [], ◌∷◌, ◌++◌, ltb, ◌==◌,
  if◌then◌else◌, str_eq, codes, any, sort_down, same_text, split, strip, is_space, is_empty,
  Unicode,
}
use mathlib.Core.List
use cognikernel.Events.Row.{
  EventType, decision, constraint_hard, constraint_soft, component_status, approach_abandoned,
  approach_abandoned_do_not_retry, thread_open, thread_close, Floats, EventRow,
}
use cognikernel.Projection.Consolidate.{join_words}

-- An event with the two keys of its payload that name its subject.
pub record Shown (W : Type 0) : Type 0 where
  pub row : EventRow W
  pub open row use *
  pub subject : String
  pub triple : Option (String × String)

-- where storage/sections.py routes a type
pub data Section : Type 0 where
  hard graveyard component choice thread unrouted : Section

unfoldable pub section_of : EventType → Section
section_of constraint_hard = hard
section_of approach_abandoned_do_not_retry = graveyard
section_of component_status = component
section_of decision = choice
section_of constraint_soft = choice
section_of approach_abandoned = choice
section_of thread_open = thread
section_of thread_close = unrouted

abbrev pub section_code : Section → ℕ
section_code hard = 0
section_code graveyard = 1
section_code component = 2
section_code choice = 3
section_code thread = 4
section_code unrouted = 5

unfoldable pub same_section : Section → Section → Bool
same_section a b = section_code a == section_code b

-- CONFIRMING_AUTHORITIES
unfoldable pub is_confirming : String → Bool
is_confirming a = str_eq a "user_stated" || str_eq a "assistant_decided" || str_eq a "llm"

unfoldable pub is_answer : String → Bool
is_answer a = str_eq a "assistant_answer_to_user_question"

unfoldable pub is_article : List ℕ → Bool
is_article w =
    any (λ a. same_text (codes a) w)
      ("the" ∷ "a" ∷ "an" ∷ "our" ∷ "this" ∷ "that" ∷ "these" ∷ "those" ∷ [])

-- the loop of `normalize_subject`: an article goes where a word follows it
unfoldable pub drop_articles : List (List ℕ) → List (List ℕ)
unfolding is_article
drop_articles [] = []
drop_articles (w ∷ []) = w ∷ []
drop_articles (w ∷ v ∷ ws) =
    let rest = drop_articles (v ∷ ws) in if is_article w then rest else (w ∷ v ∷ ws)

unfoldable pub normalize_subject : Unicode → List ℕ → List ℕ
unfolding drop_articles join_words
normalize_subject u text =
    let spaced =
      List.map (λ c. if u.is_word c || is_space c then c else 32) (u.lower (strip text)) in
    join_words (drop_articles (split spaced))

unfoldable pub is_bare_basename : String → Bool
is_bare_basename path = not (is_empty (codes path)) && not (any (λ c. c == 47) (codes path))

-- the first text that is not empty
abbrev or_text : String → String → String
or_text a b = if str_eq a "" then b else a

abbrev triple_subject : Option (String × String) → String
triple_subject none = ""
triple_subject (some (subject, object)) = or_text subject object

-- _THREAD_AUTHORITY_PRIORITY, with its fallback
unfoldable pub thread_priority : String → ℕ
thread_priority a =
    if str_eq a "user_stated"
    then 0
    else if str_eq a "assistant_answer_to_user_question"
    then 1
    else if str_eq a "llm"
    then 2
    else if str_eq a "assistant_decided"
    then 3
    else if str_eq a "inferred_from_code"
    then 4
    else 5

pub record Buckets (W : Type 0) : Type 0 where
  pub hard_constraints : List (Shown W)
  pub graveyard : List (Shown W)
  pub components : List (Shown W)
  pub decisions : List (Shown W)
  pub active_threads : List (Shown W)
  pub pending_confirmations : List (Shown W)

abbrev pub no_buckets : {W : Type 0} → Buckets W
no_buckets = record {
  hard_constraints = [];
  graveyard = [];
  components = [];
  decisions = [];
  active_threads = [];
  pending_confirmations = [];
}

module _ {W : Type 0} where
  unfoldable pub subject_of : Shown W → String
  subject_of e = or_text e.subject (or_text (triple_subject e.triple) e.payload.path)

  -- the branches for an event that is no answer
  unfoldable pub put_in_section : Section → Shown W → Buckets W → Buckets W
  unfolding is_bare_basename
  put_in_section hard e b = record b { hard_constraints = b.hard_constraints ++ e ∷ [] }
  put_in_section graveyard e b = record b { graveyard = b.graveyard ++ e ∷ [] }
  put_in_section component e b =
      if is_bare_basename e.payload.path
      then b
      else (record b { components = b.components ++ e ∷ [] })
  put_in_section choice e b = record b { decisions = b.decisions ++ e ∷ [] }
  put_in_section thread e b = record b { active_threads = b.active_threads ++ e ∷ [] }
  put_in_section unrouted e b = b

module _ {W : Type 0} (u : Unicode) where
  unfoldable pub norm_of : Shown W → List ℕ
  unfolding subject_of normalize_subject
  norm_of e = let s = subject_of e in if str_eq s "" then [] else normalize_subject u (codes s)

  -- the first loop
  unfoldable pub confirmed_subjects : List (Shown W) → List (List ℕ) → List (List ℕ)
  unfolding norm_of is_confirming
  confirmed_subjects [] found = found
  confirmed_subjects (e ∷ es) found = confirmed_subjects es (
      if is_confirming e.payload.authority && not (is_empty (norm_of e))
      then norm_of e ∷ found
      else found)

  unfoldable pub is_suppressed : List (List ℕ) → Shown W → Bool
  unfolding norm_of
  is_suppressed confirmed e = not (is_empty (norm_of e)) && any (same_text (norm_of e)) confirmed

  -- a round of the second loop
  unfoldable pub put_event : List (List ℕ) → Shown W → Buckets W → Buckets W
  unfolding put_in_section is_suppressed section_of is_answer
  put_event confirmed e b =
      if is_answer e.payload.authority
      then (if is_suppressed confirmed e
          then b
          else (record b { pending_confirmations = b.pending_confirmations ++ e ∷ [] }))
      else put_in_section (section_of e.event_type) e b

  unfoldable pub put_events : List (List ℕ) → List (Shown W) → Buckets W → Buckets W
  unfolding put_event
  put_events confirmed [] b = b
  put_events confirmed (e ∷ es) b = put_events confirmed es (put_event confirmed e b)

module _ {W : Type 0} (f : Floats W) (is_handoff : String → Bool) where
  -- the order of (authority, handoff, -weight)
  unfoldable pub thread_before : Shown W → Shown W → Bool
  unfolding thread_priority
  thread_before a b =
      let p = thread_priority a.payload.authority in
      let q = thread_priority b.payload.authority in
      let g = if is_handoff a.payload.description then 0 else 1 in
      let h = if is_handoff b.payload.description then 0 else 1 in
      ltb p q || (p == q && (ltb g h || (g == h && f.lt b.weight a.weight)))

  module _ (u : Unicode) where
    unfoldable pub partition_events : List (Shown W) → Buckets W
    unfolding put_events confirmed_subjects thread_before
    partition_events es =
        let b = put_events u (confirmed_subjects u es []) es no_buckets in
        record b { active_threads = sort_down (λ x y. thread_before y x) b.active_threads }

    unfoldable pub select_active_thread : List (Shown W) → Option (Shown W)
    unfolding partition_events
    select_active_thread es = elim (partition_events es).active_threads [
      | [] ↦ none
      | e ∷ rest ↦ some e
    ]
