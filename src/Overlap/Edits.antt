-- ===== src/Overlap/Edits.antt =====
-- delta/supersede.py: the edits between two texts, and the recursive distance that
-- `levenshtein_normalized` is compared with.
use cognikernel.Prelude.{
  ℕ, suc, ◌+◌, ◌≤◌, ◌≡◌, subst, List, [], ◌∷◌, arith, ◌==◌, Bool-cases, inl, inr, length, eq→≡,
  eq_self,
}
use Prim.Native.Nat.{min}
use native.Mathlib.Omega.{min_cases}
use native.Mathlib.Nat.{add-zero}
use native.Mathlib.Numerals.{add-one}
use mathlib.Core.List.{reverse, reverse_aux, reverse-reverse}
use cognikernel.Overlap.{substitution_cost}

-- `n` insertions, removals and replacements of one code point turn the first text into the second.
pub data Script : List ℕ → List ℕ → ℕ → Type 0 where
  done : Script [] [] 0
  keep : (x : ℕ) {a b : List ℕ} {n : ℕ} → Script a b n → Script (x ∷ a) (x ∷ b) n
  remove : (x : ℕ) {a b : List ℕ} {n : ℕ} → Script a b n → Script (x ∷ a) b (suc n)
  insert : (y : ℕ) {a b : List ℕ} {n : ℕ} → Script a b n → Script a (y ∷ b) (suc n)
  replace : (x y : ℕ) {a b : List ℕ} {n : ℕ} → Script a b n → Script (x ∷ a) (y ∷ b) (suc n)

-- the fewest edits
pub record IsLeast (a b : List ℕ) (n : ℕ) : Type 0 where
  pub attained : Script a b n
  pub least : (m : ℕ) → Script a b m → n ≤ m

unfoldable pub dist : List ℕ → List ℕ → ℕ
dist [] b = length b
dist (x ∷ a) [] = suc (length a)
dist (x ∷ a) (y ∷ b) =
    let removed = dist a (y ∷ b) in
    let inserted = dist (x ∷ a) b in
    let kept = dist a b in min (min (removed + 1) (inserted + 1)) (kept + substitution_cost x y)

insert_all : (b : List ℕ) → Script [] b (length b)
insert_all [] = done
insert_all (y ∷ b) = insert y (insert_all b)

remove_all : (a : List ℕ) → Script a [] (length a)
remove_all [] = done
remove_all (x ∷ a) = remove x (remove_all a)

-- the cheaper of two scripts
least_of : (a b : List ℕ) (m n : ℕ) → Script a b m → Script a b n → Script a b (min m n)
least_of a b m n p q = min_cases m n (Script a b (min m n)) (λ _ e. rw e p) (λ _ e. rw e q)

keep_or_replace :
    (x y : ℕ) (a b : List ℕ) (n : ℕ)
    → Script a b n
    → Script (x ∷ a) (y ∷ b) (n + substitution_cost x y)
unfolding substitution_cost
keep_or_replace x y a b n p = elim (Bool-cases (x == y)) [
  | inl t ↦ rw (t, ← eq→≡ x y t, add-zero n) (keep x p)
  | inr t ↦ rw (t, add-one n) (replace x y p)
]

pub Script-dist : (a b : List ℕ) → Script a b (dist a b)
unfolding dist
Script-dist [] b = insert_all b
Script-dist (x ∷ a) [] = remove_all (x ∷ a)
Script-dist (x ∷ a) (y ∷ b) =
    least_of (x ∷ a) (y ∷ b) _ _
      (least_of (x ∷ a) (y ∷ b) _ _
        (rw (add-one (dist a (y ∷ b))) (remove x (Script-dist a (y ∷ b))))
        (rw (add-one (dist (x ∷ a) b)) (insert y (Script-dist (x ∷ a) b))))
      (keep_or_replace x y a b (dist a b) (Script-dist a b))

dist-remove : (x : ℕ) (a b : List ℕ) → dist (x ∷ a) b ≤ suc (dist a b)
unfolding dist
dist-remove x [] [] = omega arith
dist-remove x (z ∷ a) [] = omega arith
dist-remove x a (y ∷ b) = omega arith

dist-insert : (y : ℕ) (a b : List ℕ) → dist a (y ∷ b) ≤ suc (dist a b)
unfolding dist
dist-insert y [] b = omega arith
dist-insert y (x ∷ a) b = omega arith

dist-least : {a b : List ℕ} {n : ℕ} → Script a b n → dist a b ≤ n
unfolding dist substitution_cost
dist-least done = omega arith
dist-least (keep x {a} {b} p) = rw (eq_self x) (omega (arith, dist-least p))
dist-least (remove x {a} {b} p) = omega (arith, dist-least p, dist-remove x a b)
dist-least (insert y {a} {b} p) = omega (arith, dist-least p, dist-insert y a b)
dist-least (replace x y p) = ground (arith, dist-least p)

pub dist-IsLeast : (a b : List ℕ) → IsLeast a b (dist a b)
dist-IsLeast a b = record { attained = Script-dist a b; least = λ m p. dist-least p }

pub IsLeast-unique : {a b : List ℕ} {m n : ℕ} → IsLeast a b m → IsLeast a b n → m ≡ n
IsLeast-unique {m = m} {n} p q = omega (arith, p.least n q.attained, q.least m p.attained)

-- A script read from right to left.
flip : {a b : List ℕ} {n : ℕ} → Script a b n → Script b a n
flip done = done
flip (keep x p) = keep x (flip p)
flip (remove x p) = insert x (flip p)
flip (insert y p) = remove y (flip p)
flip (replace x y p) = replace y x (flip p)

pub IsLeast-flip : {a b : List ℕ} {n : ℕ} → IsLeast a b n → IsLeast b a n
IsLeast-flip p = record { attained = flip p.attained; least = λ m q. p.least m (flip q) }

relabel : {a b : List ℕ} {m n : ℕ} → m ≡ n → Script a b m → Script a b n
relabel {a} {b} e p = subst (Script a b) e p

-- one script after another, the first of them backwards
reverse_onto :
    {a b c d : List ℕ} {m n : ℕ}
    → Script a b m
    → Script c d n
    → Script (reverse_aux a c) (reverse_aux b d) (m + n)
reverse_onto {n = n} done q = relabel (omega arith) q
reverse_onto (keep x p) q = reverse_onto p (keep x q)
reverse_onto (remove x p) q = relabel (omega arith) (reverse_onto p (remove x q))
reverse_onto (insert y p) q = relabel (omega arith) (reverse_onto p (insert y q))
reverse_onto (replace x y p) q = relabel (omega arith) (reverse_onto p (replace x y q))

reversed : {a b : List ℕ} {n : ℕ} → Script a b n → Script (reverse a) (reverse b) n
reversed p = relabel (omega arith) (reverse_onto p done)

pub IsLeast-reverse : (a b : List ℕ) {n : ℕ} → IsLeast (reverse a) (reverse b) n → IsLeast a b n
IsLeast-reverse a b {n} p = record {
  attained = rw (← reverse-reverse a, ← reverse-reverse b) (reversed p.attained);
  least = λ m q. p.least m (reversed q);
}
