-- ===== src/Overlap.antt =====
-- delta/supersede.py: whether two descriptions express one concept, by their words or by the edits
-- between them. A quotient of lengths is a fraction, compared by cross-multiplication.
pub mod Edits
pub mod Rows
pub mod Words
pub mod Detect
mod Prefilter
mod Tests
use cognikernel.Prelude.{
  ℕ, zero, suc, ◌+◌, ◌*◌, ◌-◌, Bool, true, false, not, ◌&&◌, ◌||◌, List, [], ◌∷◌, if◌then◌else◌,
  ◌==◌, leb, ltb, String, codes, is_empty, any, select, count_where, length, is_space, strip, split,
  same_text, Unicode,
}
use Prim.Native.Nat.{min, max}
use mathlib.Core.List
use cognikernel.Events.Row.{EventType, same_type}

-- a quotient `num / den`
pub record Ratio : Type 0 where
  pub num : ℕ
  pub den : ℕ

-- r >= t
unfoldable pub at_least : Ratio → Ratio → Bool
at_least t r = leb (t.num * r.den) (r.num * t.den)

-- r <= t
unfoldable pub at_most : Ratio → Ratio → Bool
at_most t r = leb (r.num * t.den) (t.num * r.den)

abbrev pub jaccard_threshold : Ratio
jaccard_threshold = record { num = 3; den = 5 }

abbrev pub levenshtein_threshold : Ratio
levenshtein_threshold = record { num = 3; den = 20 }

abbrev pub subject_match_min_jaccard : Ratio
subject_match_min_jaccard = record { num = 3; den = 10 }

-- `STOPWORDS` of utils/subject.py
abbrev pub stopwords : List String
stopwords =
    "a" ∷ "an" ∷ "the" ∷ "is" ∷ "it" ∷ "in" ∷ "on" ∷ "at" ∷ "to" ∷ "for" ∷ "of" ∷ "and" ∷ "or"
    ∷ "but" ∷ "not" ∷ "we" ∷ "our" ∷ "can" ∷ "will" ∷ "are" ∷ "was" ∷ "be" ∷ "been" ∷ "has" ∷ "have"
    ∷ "had" ∷ "do" ∷ "does" ∷ "did" ∷ "no" ∷ "its" ∷ "use" ∷ "used" ∷ "using" ∷ "so" ∷ "that"
    ∷ "this" ∷ "with" ∷ "from" ∷ "as" ∷ "by" ∷ "if" ∷ "up" ∷ "out" ∷ "any" ∷ []

unfoldable pub is_stopword : List ℕ → Bool
is_stopword word = any (λ w. same_text (codes w) word) stopwords

unfoldable pub is_content : List ℕ → Bool
is_content word = ltb 2 (length word) && not (is_stopword word)

-- `set(words)`, as a list without repetitions
unfoldable pub distinct : List (List ℕ) → List (List ℕ)
distinct [] = []
distinct (w ∷ ws) = let rest = distinct ws in if any (same_text w) rest then rest else (w ∷ rest)

unfoldable pub common : List (List ℕ) → List (List ℕ) → ℕ
common a b = count_where (λ w. any (same_text w) b) a

unfoldable pub either : List (List ℕ) → List (List ℕ) → ℕ
either a b = count_where (λ w. not (any (same_text w) b)) a + length b

-- len(a & b) / len(a | b)
unfoldable pub jaccard_of : List (List ℕ) → List (List ℕ) → Ratio
jaccard_of a b =
    if is_empty a || is_empty b
    then (record { num = 0; den = 1 })
    else (record { num = common a b; den = either a b })

-- range(start, start + count)
unfoldable pub range_from : ℕ → ℕ → List ℕ
range_from start zero = []
range_from start (suc count) = start ∷ range_from (suc start) count

unfoldable pub substitution_cost : ℕ → ℕ → ℕ
substitution_cost x y = if x == y then 0 else 1

-- `curr[j]` for `j` from `1`, where `prev[j - 1]` is `diagonal`, `curr[j - 1]` is `left`, and
-- `prev` goes on from `j`
unfoldable pub fill_row : ℕ → List ℕ → ℕ → ℕ → List ℕ → List ℕ
fill_row x [] diagonal left prev = []
fill_row x (y ∷ b) diagonal left [] = []
fill_row x (y ∷ b) diagonal left (above ∷ prev) =
    let cell = min (min (above + 1) (left + 1)) (diagonal + substitution_cost x y) in
    cell ∷ fill_row x b above cell prev

-- `curr`, in round `i`
unfoldable pub next_row : ℕ → ℕ → List ℕ → List ℕ → List ℕ
next_row i x b [] = []
next_row i x b (first ∷ prev) = i ∷ fill_row x b first i prev

-- `prev` after the rounds from `i`
unfoldable pub rows_from : ℕ → List ℕ → List ℕ → List ℕ → List ℕ
rows_from i [] b prev = prev
rows_from i (x ∷ a) b prev = rows_from (suc i) a b (next_row i x b prev)

-- xs[-1]
unfoldable pub last_or : ℕ → List ℕ → ℕ
last_or d [] = d
last_or d (x ∷ xs) = last_or x xs

unfoldable pub distance_by_rows : List ℕ → List ℕ → ℕ
distance_by_rows a b = last_or 0 (rows_from 1 a b (range_from 0 (length b + 1)))

unfoldable pub edit_distance : List ℕ → List ℕ → ℕ
edit_distance a b =
    if ltb (length a) (length b) then (distance_by_rows b a) else (distance_by_rows a b)

unfoldable pub edit_ratio : List ℕ → List ℕ → Ratio
edit_ratio a b =
    if same_text a b
    then (record { num = 0; den = 1 })
    else if is_empty a || is_empty b
    then (record { num = 1; den = 1 })
    else (record { num = edit_distance a b; den = max (length a) (length b) })

-- The lengths rule the edits out, by what they cost at least.
unfoldable pub lengths_differ : List ℕ → List ℕ → Bool
lengths_differ a b =
    not (is_empty a)
    && not (is_empty b)
    && not (
        at_most levenshtein_threshold (record {
          num = (length a - length b) + (length b - length a);
          den = max (length a) (length b);
        }))

module _ (u : Unicode) where
  unfoldable pub normalize_for_overlap : List ℕ → List (List ℕ)
  normalize_for_overlap text =
      let spaced = List.map (λ c. if u.is_word c || is_space c then c else 32) (u.lower text) in
      distinct (select is_content (split spaced))

  unfoldable pub jaccard_similarity : List ℕ → List ℕ → Ratio
  jaccard_similarity text_a text_b =
      jaccard_of (normalize_for_overlap text_a) (normalize_for_overlap text_b)

  unfoldable pub levenshtein_normalized : List ℕ → List ℕ → Ratio
  levenshtein_normalized a b = edit_ratio (strip (u.lower a)) (strip (u.lower b))

  unfoldable pub descriptions_overlap : List ℕ → List ℕ → Bool
  descriptions_overlap desc_a desc_b =
      if at_least jaccard_threshold (jaccard_similarity desc_a desc_b)
      then true
      else if lengths_differ (strip desc_a) (strip desc_b)
      then false
      else (at_most levenshtein_threshold (levenshtein_normalized desc_a desc_b))
