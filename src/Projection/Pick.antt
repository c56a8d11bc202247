-- ===== src/Projection/Pick.antt =====
-- The first of a sort, by an order whose ties are transitive, and what a part of a list leaves of it;
-- for the sort of injection/ordering.py.
use cognikernel.Prelude.{
  ℕ, ◌≡◌, refl, ap, ◌∙◌, Bool, true, false, ◌&&◌, ◌||◌, Option, none, some, List, [], ◌∷◌, arith,
  ltb, ◌==◌, if◌then◌else◌, Bool-cases, Option-cases, inl, inr, All, All-map, All-select, subst,
  select, sort_down, insert_sorted,
}
use mathlib.Core.Option.{some-injective}

-- A strict order in which `less a b` puts `b` before `a`, and whose ties are transitive.
pub record IsWeakOrder {A : Type 0} (less : A → A → Bool) : Type 0 where
  pub one_way : (a b : A) → less a b ≡ true → less b a ≡ false
  pub ties : (a b c : A) → less a b ≡ false → less b c ≡ false → less a c ≡ false

-- xs[0], if there is one
unfoldable pub head_of : {A : Type 0} → List A → Option A
head_of [] = none
head_of (x ∷ xs) = some x

module _ {A : Type 0} (less : A → A → Bool) (order : IsWeakOrder less) where
  -- the first of the elements that come before all others
  unfoldable pub pick : List A → Option A
  pick [] = none
  pick (x ∷ xs) = elim (pick xs) [ none ↦ some x | some y ↦ some (if less x y then y else x) ]

  head-insert :
      (x : A) (xs : List A)
      → head_of (insert_sorted less x xs)
        ≡ some (elim (head_of xs) [ none ↦ x | some y ↦ if less x y then y else x ])
  unfolding insert_sorted head_of
  head-insert x [] = refl
  head-insert x (y ∷ xs) = elim (Bool-cases (less x y)) [ inl t ↦ rw t refl | inr t ↦ rw t refl ]

  pub head-sort : (xs : List A) → head_of (sort_down less xs) ≡ pick xs
  unfolding sort_down pick head_of
  head-sort [] = refl
  head-sort (x ∷ xs) = head-insert x (sort_down less xs) ∙ go (pick xs) (head-sort xs)
    where
      go :
          (o : Option A)
          → head_of (sort_down less xs) ≡ o
          → some
              (elim (head_of (sort_down less xs)) [ none ↦ x | some y ↦ if less x y then y else x ])
            ≡ (elim o [ none ↦ some x | some y ↦ some (if less x y then y else x) ])
      go none e = rw e refl
      go (some y) e = rw e refl

  pick-none : (xs : List A) → pick xs ≡ none → xs ≡ []
  unfolding pick
  pick-none [] e = refl
  pick-none (x ∷ xs) e = elim (Option-cases (pick xs)) [
    | inl n ↦ let never = rw n at e in cc
    | inr (y, n) ↦ let never = rw n at e in cc
  ]

  irreflexive : (x : A) → less x x ≡ false
  irreflexive x = elim (Bool-cases (less x x)) [ inl t ↦ order.one_way x x t | inr t ↦ t ]

  pick-first : (xs : List A) (y : A) → pick xs ≡ some y → All (λ z. less y z ≡ false) xs
  unfolding pick
  pick-first [] y e = tt
  pick-first (x ∷ xs) y e = elim (Option-cases (pick xs)) [
    | inl n ↦
        let same : x ≡ y = some-injective _ _ (rw n at e) in
        rw (pick-none xs n, same) (irreflexive y, tt)
    | inr (z, n) ↦ elim (Bool-cases (less x z)) [
      | inl t ↦
          let same : z ≡ y = some-injective _ _ (rw (n, t) at e) in
          subst (λ v. All (λ w. less v w ≡ false) (x ∷ xs)) same
            (order.one_way x z t, pick-first xs z n)
      | inr t ↦
          let same : x ≡ y = some-injective _ _ (rw (n, t) at e) in
          subst (λ v. All (λ w. less v w ≡ false) (x ∷ xs)) same
            (irreflexive x, All-map _ _ xs (λ w h. order.ties x z w t h) (pick-first xs z n))
    ]
  ]

  -- what is picked is one of the elements
  pick-All : (P : A → Type 0) (xs : List A) (y : A) → pick xs ≡ some y → All P xs → P y
  unfolding pick
  pick-All P [] y e h = let never = e in cc
  pick-All P (x ∷ xs) y e h = elim (Option-cases (pick xs)) [
    | inl n ↦ subst P (some-injective _ _ (rw n at e)) h.0
    | inr (z, n) ↦ elim (Bool-cases (less x z)) [
      | inl t ↦ subst P (some-injective _ _ (rw (n, t) at e)) (pick-All P xs z n h.1)
      | inr t ↦ subst P (some-injective _ _ (rw (n, t) at e)) h.0
    ]
  ]

  -- an element that no other comes before
  pick-head : (x : A) (xs : List A) → All (λ z. less x z ≡ false) xs → pick (x ∷ xs) ≡ some x
  unfolding pick
  pick-head x xs h = elim (Option-cases (pick xs)) [
    | inl n ↦ rw n refl
    | inr (z, n) ↦ rw (n, pick-All (λ w. less x w ≡ false) xs z n h) refl
  ]

  pub pick-select :
      (keep : A → Bool) (xs : List A) (y : A)
      → pick xs ≡ some y
      → keep y ≡ true
      → pick (select keep xs) ≡ some y
  unfolding pick select
  pick-select keep [] y e k = e
  pick-select keep (x ∷ xs) y e k = elim (Option-cases (pick xs)) [
    | inl n ↦
        let same : x ≡ y = some-injective _ _ (rw n at e) in
        let kept_x : keep x ≡ true = rw same k in
        rw (pick-none xs n, kept_x) (unfold select in ap some same)
    | inr (z, n) ↦ elim (Bool-cases (less x z)) [
      | inl t ↦
          let same : z ≡ y = some-injective _ _ (rw (n, t) at e) in
          let rest : pick (select keep xs) ≡ some z = pick-select keep xs z n (rw same k) in
          elim (Bool-cases (keep x)) [
            | inl o ↦ rw (o, rest, t) (ap some same)
            | inr o ↦ rw o (rest ∙ ap some same)
          ]
      | inr t ↦
          let same : x ≡ y = some-injective _ _ (rw (n, t) at e) in
          let kept_x : keep x ≡ true = rw same k in
          let later = All-map _ _ xs (λ w h. order.ties x z w t h) (pick-first xs z n) in
          rw kept_x (pick-head x (select keep xs) (All-select _ keep xs later) ∙ ap some same)
    ]
  ]

pub select-select :
    {A : Type 0} (p q : A → Bool) (xs : List A) → select p (select q xs) ≡ select q (select p xs)
unfolding select
select-select p q [] = refl
select-select p q (x ∷ xs) = ground (arith, select-select p q xs)

-- the order of two keys, with the rest of the keys as a value
unfoldable pub lex : ℕ → ℕ → Bool → Bool
lex p q rest = ltb p q || (p == q && rest)

pub lex-one_way :
    (p q : ℕ) (r s : Bool) → (r ≡ true → s ≡ false) → lex p q r ≡ true → lex q p s ≡ false
unfolding lex
lex-one_way p q true s h e = let o = h refl in ground arith
lex-one_way p q false s h e = ground arith

pub lex-ties :
    (p q n : ℕ) (r s t : Bool)
    → (r ≡ false → s ≡ false → t ≡ false)
    → lex p q r ≡ false
    → lex q n s ≡ false
    → lex p n t ≡ false
unfolding lex
lex-ties p q n r s false h e g = ground arith
lex-ties p q n false false true h e g = let never = h refl refl in cc
lex-ties p q n true s true h e g = ground arith
lex-ties p q n false true true h e g = ground arith
