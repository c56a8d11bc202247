-- ===== src/Overlap/Words.antt =====
-- delta/supersede.py: the words of a description as a set, and their Jaccard similarity.
use cognikernel.Prelude.{
  ℕ, ◌+◌, ◌≡◌, refl, sym, ap, ◌∙◌, Bool, false, not, List, [], ◌∷◌, arith, if◌then◌else◌,
  Bool-cases, inl, inr, length, any, count_where, same_text, same_text→≡, same_text_comm, Unicode,
}
use cognikernel.Overlap.{
  Ratio, distinct, common, either, jaccard_of, normalize_for_overlap, jaccard_similarity,
}

-- no word twice
abbrev IsSetList : List (List ℕ) → Type 0
IsSetList [] = Unit
IsSetList (w ∷ ws) = (any (same_text w) ws ≡ false) × IsSetList ws

distinct-IsSetList : (ws : List (List ℕ)) → IsSetList (distinct ws)
unfolding distinct
distinct-IsSetList [] = tt
distinct-IsSetList (w ∷ ws) = elim (Bool-cases (any (same_text w) (distinct ws))) [
  | inl t ↦ rw t (distinct-IsSetList ws)
  | inr t ↦ rw t (t, distinct-IsSetList ws)
]

module _ {ℓ} {A : Type ℓ} where
  count_where-none : (xs : List A) → count_where (λ x. false) xs ≡ 0
  unfolding count_where
  count_where-none [] = refl
  count_where-none (x ∷ xs) = omega (arith, count_where-none xs)

  count_where-not :
      (p : A → Bool) (xs : List A) → count_where p xs + count_where (λ x. not (p x)) xs ≡ length xs
  unfolding count_where
  count_where-not p [] = omega arith
  count_where-not p (x ∷ xs) = ground (arith, count_where-not p xs)

-- how often one word stands in a set
count_one :
    (x : List ℕ) (b : List (List ℕ))
    → IsSetList b
    → count_where (λ w. same_text w x) b ≡ (if any (same_text x) b then 1 else 0)
unfolding count_where any
count_one x [] d = refl
count_one x (y ∷ b) d = elim (Bool-cases (same_text y x)) [
  | inl t ↦
      let absent : any (same_text x) b ≡ false = rw (← same_text→≡ y x t) d.0 in
      let rest : count_where (λ w. same_text w x) b ≡ 0 = count_one x b d.1 ∙ rw absent refl in
      rw (same_text_comm x y, t, rest) (omega arith)
  | inr t ↦ rw (same_text_comm x y, t) (omega arith ∙ count_one x b d.1)
]

count_split :
    (x : List ℕ) (a b : List (List ℕ))
    → any (same_text x) a ≡ false
    → common b (x ∷ a) ≡ count_where (λ w. same_text w x) b + common b a
unfolding common count_where any
count_split x a [] h = omega arith
count_split x a (w ∷ b) h = elim (Bool-cases (same_text w x)) [
  | inl t ↦
      let absent : any (same_text w) a ≡ false = rw (same_text→≡ w x t) h in
      rw (t, absent) (omega (arith, count_split x a b h))
  | inr t ↦ rw t (omega (arith, count_split x a b h))
]

common_comm : (a b : List (List ℕ)) → IsSetList a → IsSetList b → common a b ≡ common b a
unfolding common count_where any
common_comm [] b d e = sym (count_where-none b)
common_comm (x ∷ a) b d e =
    ap (λ n. n + common a b) (sym (count_one x b e))
    ∙ ap (λ n. count_where (λ w. same_text w x) b + n) (common_comm a b d.1 e)
    ∙ sym (count_split x a b d.0)

common-either : (a b : List (List ℕ)) → common a b + either a b ≡ length a + length b
unfolding common either
common-either a b = omega (arith, count_where-not (λ w. any (same_text w) b) a)

either_comm : (a b : List (List ℕ)) → common a b ≡ common b a → either a b ≡ either b a
either_comm a b e = omega (arith, common-either a b, common-either b a)

jaccard_of_comm :
    (a b : List (List ℕ)) → IsSetList a → IsSetList b → jaccard_of a b ≡ jaccard_of b a
unfolding jaccard_of
jaccard_of_comm [] [] d e = refl
jaccard_of_comm [] (y ∷ b) d e = refl
jaccard_of_comm (x ∷ a) [] d e = refl
jaccard_of_comm (x ∷ a) (y ∷ b) d e =
    let same = common_comm (x ∷ a) (y ∷ b) d e in
    ap (λ n. ratio n (either (x ∷ a) (y ∷ b))) same
    ∙ ap (ratio (common (y ∷ b) (x ∷ a))) (either_comm (x ∷ a) (y ∷ b) same)
  where
    ratio : ℕ → ℕ → Ratio
    ratio n m = record { num = n; den = m }

pub jaccard_similarity_comm :
    (u : Unicode) (s t : List ℕ) → jaccard_similarity u s t ≡ jaccard_similarity u t s
unfolding jaccard_similarity normalize_for_overlap
jaccard_similarity_comm u s t = jaccard_of_comm _ _ (distinct-IsSetList _) (distinct-IsSetList _)
