-- ===== src/Projection/Tests.antt =====
-- storage/consolidate.py and injection/ordering.py: a few records and events, and the theorems at
-- them.
use cognikernel.Prelude.{
  ℕ, ◌≡◌, refl, true, false, none, some, List, [], ◌∷◌, arith, String, Option, leb, ltb, ◌&&◌, any,
  select, Unicode, Bool, sort_down, insert_sorted, is_space, lstrip, strip, split, same_text, take,
  count_where,
}
use mathlib.Core.List
use cognikernel.Events.Row.{decision, thread_open, EventType}
use cognikernel.Overlap.{
  at_least, is_stopword, is_content, distinct, common, either, jaccard_of, normalize_for_overlap,
  jaccard_similarity,
}
use cognikernel.Merge.Supersede.{authority_precedence}
use cognikernel.Projection.Consolidate.{
  Rec, mentions, consolidate_by_key, lineage_max, key_of, join_words, add_to_key, group_by_key,
  ranks_below, top_weight, norm_desc, repeats, lineage_of, new_lineage, canonical_of, merge_ranked,
  is_related, split_ranked, consolidate_group, consolidate_groups,
}
use cognikernel.Projection.Mentions.{consolidate_by_key-mentions}
use cognikernel.Projection.Ordering.{
  Shown, select_active_thread, partition_events, section_of, is_confirming, is_answer, is_article,
  drop_articles, normalize_subject, is_bare_basename, thread_priority, subject_of, put_in_section,
  norm_of, confirmed_subjects, is_suppressed, put_event, put_events, thread_before,
}
use cognikernel.Projection.Sections.{select_active_thread-select}
use cognikernel.Samples.{event, row, floats, payload}

program : Unit {0}
unfolding any select count_where sort_down insert_sorted is_space lstrip strip split same_text take
    at_least is_stopword is_content distinct common either jaccard_of normalize_for_overlap
    jaccard_similarity authority_precedence lineage_max key_of join_words add_to_key group_by_key
    ranks_below mentions top_weight norm_desc repeats lineage_of new_lineage canonical_of
    merge_ranked is_related split_ranked consolidate_group consolidate_groups consolidate_by_key
    section_of is_confirming is_answer is_article drop_articles normalize_subject is_bare_basename
    thread_priority subject_of put_in_section norm_of confirmed_subjects is_suppressed put_event
    put_events thread_before partition_events select_active_thread
program = tt

abbrev plain : Unicode
plain = record { lower = λ cs. cs; is_word = λ c. leb 97 c && leb c 122 }

abbrev rec_of : ℕ → Option String → String → Rec ℕ
rec_of id key text = record {
  id = id;
  event_type = decision;
  weight = id;
  mention_count = id;
  session_id = "s1";
  content_hash = "h";
  payload = payload text;
  created_at = id;
  decision_key = key;
  provenance_count = none;
  lineage = [];
}

abbrev records : List (Rec ℕ)
records =
    rec_of 1 (some "cache") "cache in redis"
    ∷ rec_of 2 none "use tabs"
    ∷ rec_of 3 (some "cache") "cache all in redis"
    ∷ []

consolidate_by_key-mentions_example :
    mentions (consolidate_by_key floats plain records) ≡ mentions records
consolidate_by_key-mentions_example = consolidate_by_key-mentions floats plain records

survivors : List.map (λ r. r.mention_count) (consolidate_by_key floats plain records) ≡ 2 ∷ 4 ∷ []
unfolding program
survivors = refl

abbrev shown : ℕ → EventType → String → String → Shown ℕ
shown id type authority about = record {
  row = row id none (record (event type "work" "h") {
    payload = record (payload "work") { authority = authority };
    weight = id;
  });
  subject = about;
  triple = none;
}

abbrev all_events : List (Shown ℕ)
all_events =
    shown 1 thread_open "llm" "cache"
    ∷ shown 2 thread_open "user_stated" "queue"
    ∷ shown 3 decision "assistant_answer_to_user_question" "the cache"
    ∷ shown 4 decision "llm" "our cache"
    ∷ shown 5 thread_open "assistant_answer_to_user_question" "store"
    ∷ []

-- the answer about the store waits, the one about the confirmed cache is suppressed
waiting :
    List.map
      (λ e. e.id)
      (partition_events floats (λ d. false) plain all_events).pending_confirmations
    ≡ 5 ∷ []
unfolding program
waiting = refl

chosen :
    select_active_thread floats (λ d. false) plain all_events
    ≡ some (shown 2 thread_open "user_stated" "queue")
unfolding program
chosen = refl

asymmetric : (a b : ℕ) → ltb a b ≡ true → ltb b a ≡ false
asymmetric a b e = ground arith

transitive : (a b c : ℕ) → ltb a b ≡ false → ltb b c ≡ false → ltb a c ≡ false
transitive a b c e g = ground arith

abbrev kept : Shown ℕ → Bool
kept e = ltb e.id 4

select_active_thread-select_example :
    select_active_thread floats (λ d. false) plain (select kept all_events)
    ≡ some (shown 2 thread_open "user_stated" "queue")
select_active_thread-select_example =
    select_active_thread-select floats (λ d. false) plain asymmetric transitive kept all_events
      (shown 2 thread_open "user_stated" "queue") chosen refl
