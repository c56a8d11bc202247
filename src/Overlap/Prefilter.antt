-- ===== src/Overlap/Prefilter.antt =====
-- delta/supersede.py: the edit distance behind `levenshtein_normalized`, and the length test by which
-- `descriptions_overlap` passes it over.
use cognikernel.Prelude.{
  ℕ, suc, ◌+◌, ◌*◌, ◌≤◌, ◌≡◌, refl, ap, true, false, ◌||◌, List, [], ◌∷◌, arith, if◌then◌else◌,
  Bool-cases, inl, inr, length, strip, is_empty, same_text, same_text→≡, same_text_comm, Unicode,
}
use Prim.Native.Nat.{max}
use native.Mathlib.Nat.{max_comm}
use cognikernel.Overlap.Words.{jaccard_similarity_comm}
use cognikernel.Overlap.{
  Ratio, at_least, at_most, jaccard_threshold, levenshtein_threshold, edit_distance, edit_ratio,
  lengths_differ, jaccard_similarity, levenshtein_normalized, descriptions_overlap,
}
use cognikernel.Overlap.Edits.{
  Script, done, keep, remove, insert, replace, IsLeast, dist, dist-IsLeast, IsLeast-unique,
  IsLeast-flip,
}
use cognikernel.Overlap.Rows.{edit_distance-IsLeast}

IsLeast-self : (a : List ℕ) → IsLeast a a 0
IsLeast-self a = record { attained = keep_all a; least = λ m p. omega arith }
  where
    keep_all : (a : List ℕ) → Script a a 0
    keep_all [] = done
    keep_all (x ∷ a) = keep x (keep_all a)

-- what a ratio over the longer length says of a distance
abbrev Measures : List ℕ → List ℕ → Ratio → Type 0
Measures a b r =
    (k : ℕ) × IsLeast a b k × (r.num * max (length a) (length b) ≡ k * r.den) × (1 ≤ r.den)

edit_ratio-Measures : (a b : List ℕ) → Measures a b (edit_ratio a b)
unfolding edit_ratio
edit_ratio-Measures a b = elim (Bool-cases (same_text a b)) [
  | inl t ↦ rw (t, ← same_text→≡ a b t) (0, IsLeast-self a, omega arith, omega arith)
  | inr t ↦ rw t (differ a b)
]
  where
    differ :
        (a b : List ℕ)
        → Measures a b (
            if is_empty a || is_empty b
            then (record { num = 1; den = 1 })
            else (record { num = edit_distance a b; den = max (length a) (length b) }))
    differ [] b = (length b, unfold dist in dist-IsLeast [] b, omega arith, omega arith)
    differ (x ∷ a) [] =
        (suc (length a), unfold dist in dist-IsLeast (x ∷ a) [], omega arith, omega arith)
    differ (x ∷ a) (y ∷ b) =
        (edit_distance (x ∷ a) (y ∷ b), edit_distance-IsLeast (x ∷ a) (y ∷ b), refl, omega arith)

-- The fraction is the least number of insertions, removals and replacements of one code point that
-- turn one normalized text into the other, over the longer of the two lengths: 0 for equal texts, 1
-- where one text alone is empty, and by the rolling rows otherwise. Its denominator is positive.
pub levenshtein_normalized-IsLeast :
    (u : Unicode) (s t : List ℕ)
    → Measures (strip (u.lower s)) (strip (u.lower t)) (levenshtein_normalized u s t)
unfolding levenshtein_normalized
levenshtein_normalized-IsLeast u s t = edit_ratio-Measures (strip (u.lower s)) (strip (u.lower t))

Script-length :
    {a b : List ℕ} {n : ℕ} → Script a b n → (length a ≤ length b + n) × (length b ≤ length a + n)
Script-length done = (omega arith, omega arith)
Script-length (keep x p) = (omega (arith, Script-length p), omega (arith, Script-length p))
Script-length (remove x p) = (omega (arith, Script-length p), omega (arith, Script-length p))
Script-length (insert y p) = (omega (arith, Script-length p), omega (arith, Script-length p))
Script-length (replace x y p) = (omega (arith, Script-length p), omega (arith, Script-length p))

lengths_differ-edit_ratio :
    (a b c d : List ℕ)
    → length c ≡ length a
    → length d ≡ length b
    → lengths_differ a b ≡ true
    → at_most levenshtein_threshold (edit_ratio c d) ≡ false
unfolding lengths_differ at_most edit_ratio
lengths_differ-edit_ratio [] b c d e f h = absurd (ground arith)
lengths_differ-edit_ratio (x ∷ a) [] c d e f h = absurd (ground arith)
lengths_differ-edit_ratio (x ∷ a) (y ∷ b) [] d e f h = absurd (omega arith)
lengths_differ-edit_ratio (x ∷ a) (y ∷ b) (z ∷ c) [] e f h = absurd (omega arith)
lengths_differ-edit_ratio (x ∷ a) (y ∷ b) (z ∷ c) (w ∷ d) e f h =
    elim (Bool-cases (same_text (z ∷ c) (w ∷ d))) [
      | inl t ↦
          let q : length (z ∷ c) ≡ length (w ∷ d) = ap length (same_text→≡ (z ∷ c) (w ∷ d) t) in
          absurd (ground arith)
      | inr t ↦
          let bound = Script-length (edit_distance-IsLeast (z ∷ c) (w ∷ d)).attained in
          rw t (ground (arith, bound))
    ]

-- If lowering each of two descriptions keeps the length of its stripped form, the length test does
-- not change the result: they overlap exactly if their Jaccard similarity is at least 3/5 or their
-- normalized edit distance is at most 3/20.
pub descriptions_overlap-or :
    (u : Unicode) (s t : List ℕ)
    → length (strip (u.lower s)) ≡ length (strip s)
    → length (strip (u.lower t)) ≡ length (strip t)
    → descriptions_overlap u s t ≡ (
        at_least jaccard_threshold (jaccard_similarity u s t)
        || at_most levenshtein_threshold (levenshtein_normalized u s t))
unfolding descriptions_overlap levenshtein_normalized
descriptions_overlap-or u s t same_s same_t =
    elim (Bool-cases (at_least jaccard_threshold (jaccard_similarity u s t))) [
      | inl t ↦ rw t refl
      | inr o ↦ elim (Bool-cases (lengths_differ (strip s) (strip t))) [
        | inr l ↦ rw (o, l) refl
        | inl l ↦
            rw
              (
                o,
                l,
                lengths_differ-edit_ratio (strip s) (strip t) (strip (u.lower s))
                    (strip (u.lower t)) same_s same_t l,
              )
              refl
      ]
    ]

-- A ratio over the longer length does not depend on the order of the two texts.
edit_ratio_comm : (a b : List ℕ) → edit_ratio a b ≡ edit_ratio b a
unfolding edit_ratio
edit_ratio_comm [] [] = refl
edit_ratio_comm [] (y ∷ b) = unfold same_text in refl
edit_ratio_comm (x ∷ a) [] = unfold same_text in refl
edit_ratio_comm (x ∷ a) (y ∷ b) =
    let least = edit_distance-IsLeast (x ∷ a) (y ∷ b) in
    let back = IsLeast-flip (edit_distance-IsLeast (y ∷ b) (x ∷ a)) in
    rw
      (
        same_text_comm (x ∷ a) (y ∷ b),
        IsLeast-unique least back,
        max_comm (suc (length a)) (suc (length b)),
      )
      refl

lengths_differ_comm : (a b : List ℕ) → lengths_differ a b ≡ lengths_differ b a
unfolding lengths_differ at_most
lengths_differ_comm [] [] = refl
lengths_differ_comm [] (y ∷ b) = refl
lengths_differ_comm (x ∷ a) [] = refl
lengths_differ_comm (x ∷ a) (y ∷ b) = ground arith

pub descriptions_overlap_comm :
    (u : Unicode) (s t : List ℕ) → descriptions_overlap u s t ≡ descriptions_overlap u t s
unfolding descriptions_overlap levenshtein_normalized
descriptions_overlap_comm u s t =
    rw
      (
        jaccard_similarity_comm u s t,
        lengths_differ_comm (strip s) (strip t),
        edit_ratio_comm (strip (u.lower s)) (strip (u.lower t)),
      )
      refl
