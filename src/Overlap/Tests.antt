-- ===== src/Overlap/Tests.antt =====
-- delta/supersede.py: two descriptions, and the theorems at them.
use cognikernel.Prelude.{
  ℕ, ◌+◌, ◌*◌, ◌≤◌, ◌≡◌, refl, true, ◌&&◌, ◌||◌, List, [], ◌∷◌, codes, leb, ◌==◌, if◌then◌else◌,
  length, any, select, count_where, is_space, lstrip, strip, split, same_text, Unicode, none,
}
use mathlib.Core.List
use Prim.Native.Nat.{max}
use cognikernel.Events.Row.{decision, same_type}
use cognikernel.Overlap.{
  at_least, at_most, jaccard_threshold, levenshtein_threshold, is_stopword, is_content, distinct,
  common, either, jaccard_of, range_from, substitution_cost, fill_row, next_row, rows_from, last_or,
  distance_by_rows, edit_distance, edit_ratio, lengths_differ, normalize_for_overlap,
  jaccard_similarity, levenshtein_normalized, descriptions_overlap,
}
use cognikernel.Overlap.Edits.{IsLeast}
use cognikernel.Overlap.Prefilter.{levenshtein_normalized-IsLeast, descriptions_overlap-or}
use cognikernel.Overlap.Detect.{
  subject_supersedes, supersedes, events_overlap, is_active_peer, detect_supersession,
  events_overlap_comm,
}
use cognikernel.Merge.Supersede.{is_supersession_type}
use cognikernel.Samples.{event, row}

program : Unit {0}
unfolding any select count_where is_space lstrip strip split same_text same_type at_least at_most
    is_stopword is_content distinct common either jaccard_of range_from substitution_cost fill_row
    next_row rows_from last_or distance_by_rows edit_distance edit_ratio lengths_differ
    normalize_for_overlap jaccard_similarity levenshtein_normalized descriptions_overlap
    subject_supersedes supersedes events_overlap is_active_peer detect_supersession
    is_supersession_type
program = tt

abbrev lower_code : ℕ → ℕ
lower_code c = if leb 65 c && leb c 90 then c + 32 else c

abbrev ascii : Unicode
ascii = record {
  lower = List.map lower_code;
  is_word =
      λ c. (leb 48 c && leb c 57) || (leb 65 c && leb c 90) || (leb 97 c && leb c 122) || c == 95;
}

abbrev before : List ℕ
before = codes "Cache sessions in Redis"

abbrev after : List ℕ
after = codes "cache session in redis "

kitten : edit_distance (codes "kitten") (codes "sitting") ≡ 3
unfolding program
kitten = refl

ratio : levenshtein_normalized ascii before after ≡ record { num = 1; den = 23 }
unfolding program
ratio = refl

words : jaccard_similarity ascii before after ≡ record { num = 2; den = 4 }
unfolding program
words = refl

overlaps : descriptions_overlap ascii before after ≡ true
unfolding program
overlaps = refl

abbrev first_word : List ℕ → List ℕ
first_word s = elim (split s) [ [] ↦ [] | w ∷ ws ↦ w ]

detects :
    detect_supersession ascii first_word (event decision "Cache sessions in Redis" "h1") (
      row 1 none (event decision "cache session in redis " "h2")
      ∷ row 2 none (event decision "use tabs" "h3")
      ∷ [])
    ≡ 1 ∷ []
unfolding program
detects = refl

levenshtein_normalized-IsLeast_example :
    (k : ℕ) × IsLeast (strip (ascii.lower before)) (strip (ascii.lower after)) k
    × ((levenshtein_normalized ascii before after).num
          * max (length (strip (ascii.lower before))) (length (strip (ascii.lower after)))
        ≡ k * (levenshtein_normalized ascii before after).den)
    × (1 ≤ (levenshtein_normalized ascii before after).den)
levenshtein_normalized-IsLeast_example = levenshtein_normalized-IsLeast ascii before after

events_overlap_comm_example :
    events_overlap ascii first_word
      (event decision "use redis" "h1")
      (event decision "use tabs" "h2")
    ≡ events_overlap ascii first_word
        (event decision "use tabs" "h2")
        (event decision "use redis" "h1")
events_overlap_comm_example =
    events_overlap_comm ascii first_word (event decision "use redis" "h1")
      (event decision "use tabs" "h2")

descriptions_overlap-or_example : descriptions_overlap ascii before after ≡ (
    at_least jaccard_threshold (jaccard_similarity ascii before after)
    || at_most levenshtein_threshold (levenshtein_normalized ascii before after))
unfolding program
descriptions_overlap-or_example = descriptions_overlap-or ascii before after refl refl
