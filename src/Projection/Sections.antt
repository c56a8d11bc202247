-- ===== src/Projection/Sections.antt =====
-- injection/ordering.py: the active thread that is chosen from all events is the one that the
-- renderer shows of a part of them.
use cognikernel.Prelude.{
  ℕ, ◌≡◌, refl, sym, ap, ◌∙◌, String, Bool, true, false, not, ◌&&◌, none, some, List, [], ◌∷◌, ◌++◌,
  arith, if◌then◌else◌, Bool-cases, inl, inr, select, sort_down, Unicode,
}
use mathlib.Core.List.{append_assoc, append-nil}
use cognikernel.Events.Row.{Floats}
use cognikernel.Projection.Pick.{
  IsWeakOrder, head_of, pick, head-sort, pick-select, select-select, lex, lex-one_way, lex-ties,
}
use cognikernel.Projection.Ordering.{
  Shown, Section, hard, graveyard, component, choice, thread, unrouted, section_of, same_section,
  is_answer, is_suppressed, Buckets, no_buckets, put_in_section, put_event, put_events,
  confirmed_subjects, thread_priority, thread_before, partition_events, select_active_thread,
}

module _ {W : Type 0} where
  -- an event of the thread section
  is_thread : Shown W → Bool
  is_thread e = not (is_answer e.payload.authority) && same_section (section_of e.event_type) thread

  put_in_section-threads :
      (s : Section) (e : Shown W) (b : Buckets W)
      → (put_in_section s e b).active_threads
        ≡ b.active_threads ++ (if same_section s thread then e ∷ [] else [])
  unfolding put_in_section same_section
  put_in_section-threads hard e b = sym (append-nil b.active_threads)
  put_in_section-threads graveyard e b = sym (append-nil b.active_threads)
  put_in_section-threads component e b = ground (arith, append-nil b.active_threads)
  put_in_section-threads choice e b = sym (append-nil b.active_threads)
  put_in_section-threads thread e b = refl
  put_in_section-threads unrouted e b = sym (append-nil b.active_threads)

  put_event-threads :
      (u : Unicode) (confirmed : List (List ℕ)) (e : Shown W) (b : Buckets W)
      → (put_event u confirmed e b).active_threads
        ≡ b.active_threads ++ (if is_thread e then e ∷ [] else [])
  unfolding put_event is_thread
  put_event-threads u confirmed e b = elim (Bool-cases (is_answer e.payload.authority)) [
    | inr t ↦ rw t (put_in_section-threads (section_of e.event_type) e b)
    | inl t ↦ elim (Bool-cases (is_suppressed u confirmed e)) [
      | inl o ↦ rw (t, o) (sym (append-nil b.active_threads))
      | inr o ↦ rw (t, o) (sym (append-nil b.active_threads))
    ]
  ]

  -- The thread bucket of the second loop has the events of the thread section, whatever subjects are
  -- confirmed.
  put_events-threads :
      (u : Unicode) (confirmed : List (List ℕ)) (es : List (Shown W)) (b : Buckets W)
      → (put_events u confirmed es b).active_threads ≡ b.active_threads ++ select is_thread es
  unfolding put_events select
  put_events-threads u confirmed [] b = sym (append-nil b.active_threads)
  put_events-threads u confirmed (e ∷ es) b =
      put_events-threads u confirmed es (put_event u confirmed e b)
      ∙ ap (λ ts. ts ++ select is_thread es) (put_event-threads u confirmed e b)
      ∙ append_assoc b.active_threads (if is_thread e then e ∷ [] else []) (select is_thread es)
      ∙ ap (λ ts. b.active_threads ++ ts) (go (is_thread e))
    where
      go :
          (b : Bool)
          → (if b then e ∷ [] else []) ++ select is_thread es
            ≡ (if b then e ∷ select is_thread es else select is_thread es)
      go true = refl
      go false = refl

module _ {W : Type 0} (f : Floats W) (is_handoff : String → Bool) (u : Unicode) where
  abbrev thread_after : Shown W → Shown W → Bool
  thread_after x y = thread_before f is_handoff y x

  select_active-pick :
      (order : IsWeakOrder thread_after) (es : List (Shown W))
      → select_active_thread f is_handoff u es ≡ pick thread_after order (select is_thread es)
  unfolding select_active_thread partition_events
  select_active-pick order es =
      let threads = put_events-threads u (confirmed_subjects u es []) es no_buckets in
      as_head _
      ∙ ap (λ ts. head_of (sort_down thread_after ts)) threads
      ∙ head-sort thread_after order (select is_thread es)
    where
      as_head : (ts : List (Shown W)) → (elim ts [ [] ↦ none | e ∷ rest ↦ some e ]) ≡ head_of ts
      as_head [] = unfold head_of in refl
      as_head (e ∷ rest) = unfold head_of in refl

  -- a weak order of the weights is enough
  thread_after-order :
      (asym : (a b : W) → f.lt a b ≡ true → f.lt b a ≡ false)
      (ties : (a b c : W) → f.lt a b ≡ false → f.lt b c ≡ false → f.lt a c ≡ false)
      → IsWeakOrder thread_after
  unfolding thread_before lex
  thread_after-order asym ties =
      let p = λ (e : Shown W). thread_priority e.payload.authority in
      let h = λ (e : Shown W). if is_handoff e.payload.description then 0 else 1 in
      record {
        one_way = λ a b.
            lex-one_way (p b) (p a) _ _ (lex-one_way (h b) (h a) _ _ (asym a.weight b.weight));
        ties = λ a b c. λ e g.
            lex-ties (p c) (p b) (p a) _ _ _
              (lex-ties (h c) (h b) (h a) _ _ _ (λ x y. ties a.weight b.weight c.weight y x)) g e;
      }

  -- The thread that `select_active_thread` chooses from all events is the one that it chooses from
  -- any part of them, in their order, that still has that thread: what the part drops can change
  -- which answers are suppressed, but not this choice. The comparison of weights is a strict weak
  -- order, as that of floats without NaN is.
  pub select_active_thread-select :
      (asym : (a b : W) → f.lt a b ≡ true → f.lt b a ≡ false)
      (ties : (a b c : W) → f.lt a b ≡ false → f.lt b c ≡ false → f.lt a c ≡ false)
      (keep : Shown W → Bool) (es : List (Shown W)) (e : Shown W)
      → select_active_thread f is_handoff u es ≡ some e
      → keep e ≡ true
      → select_active_thread f is_handoff u (select keep es) ≡ some e
  select_active_thread-select asym ties keep es e chosen kept =
      let order = thread_after-order asym ties in
      select_active-pick order (select keep es)
      ∙ ap (pick thread_after order) (select-select is_thread keep es)
      ∙ pick-select thread_after order keep (select is_thread es) e
          (sym (select_active-pick order es) ∙ chosen) kept
