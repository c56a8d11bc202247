-- ===== src/Evidence/Splitting.antt =====
-- storage/cursors.py: how lines are split from texts that are put together.
use cognikernel.Prelude.{
  drop, take, ℕ, zero, suc, ◌-◌, ◌≡◌, ◌≢◌, ◌⊎◌, inl, inr, refl, ap, ◌∙◌, Bool, true, false, ◌&&◌,
  List, [], ◌∷◌, ◌++◌, arith, ◌==◌, strip, select, select-All, All-select, All, Bool-cases, length,
  ◌≤◌,
}
use cognikernel.Evidence.Lines.{is_break, extend, split_lines, has_text, lines_of, join_lines}

extend-append : (c : ℕ) (a b : List (List ℕ)) → a ≢ [] → extend c (a ++ b) ≡ extend c a ++ b
unfolding extend
extend-append c [] b ne = absurd (ne refl)
extend-append c (l ∷ a) b ne = refl

extend-ne_nil : (c : ℕ) (a : List (List ℕ)) → extend c a ≢ []
unfolding extend
extend-ne_nil c [] = λ e. ground arith
extend-ne_nil c (l ∷ a) = λ e. ground arith

-- a text that ends with a line feed has a line
split-ne_nil : (xs : List ℕ) → split_lines false (xs ++ 10 ∷ []) ≢ []
unfolding split_lines
split-ne_nil [] = λ e. ground arith
split-ne_nil (c ∷ cs) = elim (Bool-cases (is_break c)) [
  | inl t ↦ rw t (λ e. ground arith)
  | inr t ↦ rw t (extend-ne_nil c _)
]

break-not_cr : (c : ℕ) → is_break c ≡ false → (c == 13) ≡ false
unfolding is_break
break-not_cr c h = ground arith

-- a line feed ends the lines before it
split-feed :
    (cr : Bool) (xs ys : List ℕ)
    → split_lines cr (xs ++ 10 ∷ ys) ≡ split_lines cr (xs ++ 10 ∷ []) ++ split_lines false ys
unfolding split_lines is_break
split-feed true [] ys = refl
split-feed false [] ys = refl
split-feed cr (c ∷ xs) ys = elim (Bool-cases (cr && c == 10)) [
  | inl t ↦ rw t (split-feed (c == 13) xs ys)
  | inr t ↦ rw t (elim (Bool-cases (is_break c)) [
    | inl b ↦ rw b (ap (λ ls. [] ∷ ls) (split-feed (c == 13) xs ys))
    | inr b ↦
        rw (b, break-not_cr c b)
          (ap (extend c) (split-feed false xs ys)
            ∙ extend-append c (split_lines false (xs ++ 10 ∷ [])) (split_lines false ys)
                (split-ne_nil xs))
  ])
]

extend-more :
    (c : ℕ) (a b : List (List ℕ))
    → (b ≡ a) ⊎ (b ≡ a ++ [] ∷ [])
    → (extend c b ≡ extend c a) ⊎ (extend c b ≡ extend c a ++ [] ∷ [])
unfolding extend
extend-more c a b (inl e) = inl (ap (extend c) e)
extend-more c [] b (inr e) = inl (rw e refl)
extend-more c (l ∷ a) b (inr e) = inr (rw e refl)

-- a last line feed adds an empty line at most
split-last_feed :
    (cr : Bool) (xs : List ℕ)
    → (split_lines cr (xs ++ 10 ∷ []) ≡ split_lines cr xs)
      ⊎ (split_lines cr (xs ++ 10 ∷ []) ≡ split_lines cr xs ++ [] ∷ [])
unfolding split_lines is_break
split-last_feed true [] = inl refl
split-last_feed false [] = inr refl
split-last_feed cr (c ∷ xs) = elim (Bool-cases (cr && c == 10)) [
  | inl t ↦ rw t (split-last_feed (c == 13) xs)
  | inr t ↦ rw t (elim (Bool-cases (is_break c)) [
    | inl b ↦ rw b (elim (split-last_feed (c == 13) xs) [
      | inl e ↦ inl (ap (λ ls. [] ∷ ls) e)
      | inr e ↦ inr (ap (λ ls. [] ∷ ls) e)
    ])
    | inr b ↦ rw b (extend-more c (split_lines (c == 13) xs) _ (split-last_feed (c == 13) xs))
  ])
]

select-append {ℓ} :
    {A : Type ℓ} (p : A → Bool) (xs ys : List A) → select p (xs ++ ys) ≡ select p xs ++ select p ys
unfolding select
select-append p [] ys = refl
select-append p (x ∷ xs) ys = ground (arith, select-append p xs ys)

pub append_nil {ℓ} : {A : Type ℓ} (xs : List A) → xs ++ [] ≡ xs
append_nil [] = refl
append_nil (x ∷ xs) = ap (λ l. x ∷ l) (append_nil xs)

pub lines-last_feed : (xs : List ℕ) → lines_of (xs ++ 10 ∷ []) ≡ lines_of xs
unfolding lines_of select strip
lines-last_feed xs = elim (split-last_feed false xs) [
  | inl e ↦ ap (select has_text) e
  | inr e ↦
      ap (select has_text) e
      ∙ select-append has_text (split_lines false xs) ([] ∷ [])
      ∙ append_nil (lines_of xs)
]

-- the lines of two texts with a line feed between them
pub lines-feed : (xs ys : List ℕ) → lines_of (xs ++ 10 ∷ ys) ≡ lines_of xs ++ lines_of ys
unfolding lines_of
lines-feed xs ys =
    ap (select has_text) (split-feed false xs ys)
    ∙ select-append has_text (split_lines false (xs ++ 10 ∷ [])) (split_lines false ys)
    ∙ ap (λ ls. ls ++ lines_of ys) (lines-last_feed xs)

-- A line holds no boundary.
abbrev pub IsLine : List ℕ → Type 0
IsLine l = All (λ c. is_break c ≡ false) l

extend-IsLine :
    (c : ℕ) (ls : List (List ℕ)) → is_break c ≡ false → All IsLine ls → All IsLine (extend c ls)
unfolding extend
extend-IsLine c [] b h = ((b, tt), tt)
extend-IsLine c (l ∷ ls) b h = ((b, h.0), h.1)

pub split-IsLine : (cr : Bool) (text : List ℕ) → All IsLine (split_lines cr text)
unfolding split_lines
split-IsLine cr [] = tt
split-IsLine cr (c ∷ cs) = elim (Bool-cases (cr && c == 10)) [
  | inl t ↦ rw t (split-IsLine (c == 13) cs)
  | inr t ↦ rw t (elim (Bool-cases (is_break c)) [
    | inl b ↦ rw b (tt, split-IsLine (c == 13) cs)
    | inr b ↦ rw b (extend-IsLine c (split_lines (c == 13) cs) b (split-IsLine (c == 13) cs))
  ])
]

-- one line splits into itself
split-line : (c : ℕ) (l : List ℕ) → IsLine (c ∷ l) → split_lines false (c ∷ l) ≡ (c ∷ l) ∷ []
unfolding split_lines
split-line c [] h = rw h.0 refl
split-line c (d ∷ l) h = rw (h.0, break-not_cr c h.0) (ap (extend c) (split-line d l h.1))

one_line : (l : List ℕ) → IsLine l → has_text l ≡ true → lines_of l ≡ l ∷ []
unfolding lines_of
one_line [] h k = absurd (unfold has_text strip in ground arith)
one_line (c ∷ l) h k = rw (split-line c l h) (unfold select in rw k refl)

-- lines that are joined are split again
pub lines-join :
    (ls : List (List ℕ))
    → All IsLine ls
    → All (λ l. has_text l ≡ true) ls
    → lines_of (join_lines ls) ≡ ls
unfolding join_lines
lines-join [] h k = unfold lines_of select in refl
lines-join (l ∷ []) h k = one_line l h.0 k.0
lines-join (l ∷ m ∷ ls) h k =
    lines-feed l (join_lines (m ∷ ls))
    ∙ ap (λ xs. xs ++ lines_of (join_lines (m ∷ ls))) (one_line l h.0 k.0)
    ∙ ap (λ xs. l ∷ xs) (lines-join (m ∷ ls) h.1 k.1)

pub lines-IsLine : (text : List ℕ) → All IsLine (lines_of text)
unfolding lines_of
lines-IsLine text = All-select IsLine has_text (split_lines false text) (split-IsLine false text)

pub lines-has_text : (text : List ℕ) → All (λ l. has_text l ≡ true) (lines_of text)
unfolding lines_of
lines-has_text text = select-All has_text (split_lines false text)

pub All-right {ℓ κ} : {A : Type ℓ} (P : A → Type κ) (xs ys : List A) → All P (xs ++ ys) → All P ys
All-right P [] ys h = h
All-right P (x ∷ xs) ys h = All-right P xs ys h.1

pub drop-length {ℓ} : {A : Type ℓ} (xs ys : List A) → drop (length xs) (xs ++ ys) ≡ ys
unfolding drop
drop-length [] ys = refl
drop-length (x ∷ xs) ys = drop-length xs ys

pub All-drop {ℓ κ} :
    {A : Type ℓ} (P : A → Type κ) (n : ℕ) (xs : List A) → All P xs → All P (drop n xs)
unfolding drop
All-drop P zero xs h = h
All-drop P (suc n) [] h = tt
All-drop P (suc n) (x ∷ xs) h = All-drop P n xs h.1

pub take-append {ℓ} :
    {A : Type ℓ} (n : ℕ) (xs ys : List A) → n ≤ length xs → take n (xs ++ ys) ≡ take n xs
unfolding take
take-append zero xs ys h = refl
take-append (suc n) [] ys h = absurd (omega arith)
take-append (suc n) (x ∷ xs) ys h = ap (λ l. x ∷ l) (take-append n xs ys (ground arith))

pub drop-append {ℓ} :
    {A : Type ℓ} (n : ℕ) (xs ys : List A) → n ≤ length xs → drop n (xs ++ ys) ≡ drop n xs ++ ys
unfolding drop
drop-append zero xs ys h = refl
drop-append (suc n) [] ys h = absurd (omega arith)
drop-append (suc n) (x ∷ xs) ys h = drop-append n xs ys (ground arith)

pub length-drop {ℓ} : {A : Type ℓ} (n : ℕ) (xs : List A) → length (drop n xs) ≡ length xs - n
unfolding drop
length-drop zero xs = omega arith
length-drop (suc n) [] = omega arith
length-drop (suc n) (x ∷ xs) = length-drop n xs ∙ omega arith
