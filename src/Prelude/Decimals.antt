-- ===== src/Prelude/Decimals.antt =====
-- Python's `str` of a natural number, which `int` reads back.
use Prim.Native.Nat.{ℕ, zero, suc, ◌+◌, ◌*◌, ◌/◌, ◌%◌, ◌≤◌}
use mathlib.Core.Path.{◌≡◌, refl, ap, ◌∙◌}
use mathlib.Core.Logic.{inl, inr}
use mathlib.Core.Bool.{Bool, true, false, ◌&&◌}
use mathlib.Core.Option.{none, some}
use mathlib.Core.List.{List, [], ◌∷◌, reverse, reverse_aux, reverse-reverse}
use native.Mathlib.Omega.{arith}
use cognikernel.Prelude.Tests.{if◌then◌else◌, ltb, leb, ◌==◌, Bool-cases}
use cognikernel.Prelude.Tables.{All}
use cognikernel.Prelude.PyText.{is_space, lstrip, strip, pos, digits, unsigned, signed, py_int}

-- the digits of `n` before the text `acc`; every round drops one
unfoldable pub decimal_from : ℕ → ℕ → List ℕ → List ℕ
decimal_from zero n acc = (48 + n % 10) ∷ acc
decimal_from (suc fuel) n acc =
    let rest = decimal_from fuel (n / 10) ((48 + n % 10) ∷ acc) in
    if ltb n 10 then ((48 + n % 10) ∷ acc) else rest

-- str(n)
unfoldable pub decimal : ℕ → List ℕ
unfolding decimal_from
decimal n = decimal_from n n []

digits-step :
    (after : Bool) (m r : ℕ) (acc : List ℕ)
    → r ≤ 9
    → digits after m ((48 + r) ∷ acc) ≡ digits true (m * 10 + r) acc
unfolding digits
digits-step after m r acc h =
    let inside : (leb 48 (48 + r) && leb (48 + r) 57) ≡ true = ground arith in
    rw inside (ap (λ k. digits true k acc) (omega arith))

digits-decimal_from :
    (after : Bool) (fuel n : ℕ) (acc : List ℕ)
    → n ≤ fuel
    → digits after 0 (decimal_from fuel n acc) ≡ digits true n acc
unfolding decimal_from
digits-decimal_from after zero n acc h =
    digits-step after 0 (n % 10) acc (omega arith) ∙ ap (λ k. digits true k acc) (omega arith)
digits-decimal_from after (suc fuel) n acc h = elim (Bool-cases (ltb n 10)) [
  | inl t ↦
      rw t (
        digits-step after 0 (n % 10) acc (omega arith) ∙ ap (λ k. digits true k acc) (ground arith))
  | inr t ↦ rw t (
      digits-decimal_from after fuel (n / 10) ((48 + n % 10) ∷ acc) (ground arith)
      ∙ digits-step true (n / 10) (n % 10) acc (omega arith)
      ∙ ap (λ k. digits true k acc) (omega arith))
]

IsDigit : ℕ → Type 0
IsDigit c = (48 ≤ c) × (c ≤ 57)

All-decimal_from :
    (fuel n : ℕ) (acc : List ℕ) → All IsDigit acc → All IsDigit (decimal_from fuel n acc)
unfolding decimal_from IsDigit
All-decimal_from zero n acc h = ((omega arith, omega arith), h)
All-decimal_from (suc fuel) n acc h = elim (Bool-cases (ltb n 10)) [
  | inl t ↦ rw t ((omega arith, omega arith), h)
  | inr t ↦ rw t (All-decimal_from fuel (n / 10) _ ((omega arith, omega arith), h))
]

All-reverse_aux : (s t : List ℕ) → All IsDigit s → All IsDigit t → All IsDigit (reverse_aux s t)
All-reverse_aux [] t h k = k
All-reverse_aux (c ∷ s) t h k = All-reverse_aux s (c ∷ t) h.1 (h.0, k)

lstrip-digits : (s : List ℕ) → All IsDigit s → lstrip s ≡ s
unfolding lstrip is_space IsDigit
lstrip-digits [] h = refl
lstrip-digits (c ∷ s) h = ground (arith, h.0)

strip-digits : (s : List ℕ) → All IsDigit s → strip s ≡ s
unfolding strip
strip-digits s h =
    rw (lstrip-digits s h, lstrip-digits (reverse s) (All-reverse_aux s [] h tt))
      (reverse-reverse s)

no_digits : unsigned [] ≡ none
unfolding unsigned digits
no_digits = refl

signed-digits : (s : List ℕ) (n : ℕ) → All IsDigit s → unsigned s ≡ some n → signed s ≡ some (pos n)
unfolding signed IsDigit
signed-digits [] n h e = let nothing = no_digits in cc
signed-digits (c ∷ s) n h e =
    let no_minus : (c == 45) ≡ false = ground (arith, h.0) in
    let no_plus : (c == 43) ≡ false = ground (arith, h.0) in rw (no_minus, no_plus, e) refl

-- `int(str(n))` is `n`.
pub py_int-decimal : (n : ℕ) → py_int (decimal n) ≡ some (pos n)
unfolding py_int decimal
py_int-decimal n =
    let made = All-decimal_from n n [] tt in
    rw (strip-digits (decimal_from n n []) made) (
      signed-digits (decimal_from n n []) n made
        (unfold unsigned in digits-decimal_from false n n [] (omega arith)))
