-- ===== src/Prelude/PyText.antt =====
-- What the program uses of Python's `str` and of `int`, over lists of code points.
use Prim.Native.Nat.{ℕ, zero, suc, ◌+◌, ◌-◌, ◌*◌}
use Prim.Native.Char.{code}
use Prim.Native.String.{String}
use mathlib.Core.Bool.{Bool, true, false, ◌&&◌, ◌||◌}
use mathlib.Core.Option.{Option, none, some}
use mathlib.Core.List.{List, [], ◌∷◌, reverse}
use mathlib.Core.Path.{◌≡◌, refl}
use native.Mathlib.Omega.{arith}
use cognikernel.Prelude.Tests.{leb, ◌==◌, if◌then◌else◌, eq→≡, eq_self}
use cognikernel.Prelude.Sequences.{is_empty}

abbrev pub codes : String → List ℕ
codes String.[] = []
codes (String.◌∷◌ c s) = code c ∷ codes s

-- `str.isspace` of one code point
unfoldable pub is_space : ℕ → Bool
is_space c =
    (leb 9 c && leb c 13)
    || (leb 28 c && leb c 32)
    || c == 133
    || c == 160
    || c == 5760
    || (leb 8192 c && leb c 8202)
    || c == 8232
    || c == 8233
    || c == 8239
    || c == 8287
    || c == 12288

unfoldable pub lstrip : List ℕ → List ℕ
lstrip [] = []
lstrip (c ∷ cs) = if is_space c then lstrip cs else c ∷ cs

unfoldable pub strip : List ℕ → List ℕ
unfolding lstrip
strip s = reverse (lstrip (reverse (lstrip s)))

-- the text after the prefix, if it stands there
unfoldable pub after_prefix : List ℕ → List ℕ → Option (List ℕ)
after_prefix [] s = some s
after_prefix (p ∷ ps) [] = none
after_prefix (p ∷ ps) (c ∷ cs) = if p == c then after_prefix ps cs else none

-- s == t
unfoldable pub same_text : List ℕ → List ℕ → Bool
same_text [] [] = true
same_text [] (c ∷ cs) = false
same_text (b ∷ bs) [] = false
same_text (b ∷ bs) (c ∷ cs) = b == c && same_text bs cs

-- s.startswith(prefix)
unfoldable pub starts_with : List ℕ → List ℕ → Bool
starts_with [] s = true
starts_with (p ∷ ps) [] = false
starts_with (p ∷ ps) (c ∷ cs) = p == c && starts_with ps cs

-- s.endswith(suffix)
unfoldable pub ends_with : List ℕ → List ℕ → Bool
unfolding starts_with
ends_with suffix s = starts_with (reverse suffix) (reverse s)

-- part in s
unfoldable pub contains : List ℕ → List ℕ → Bool
unfolding starts_with
contains part [] = starts_with part []
contains part (c ∷ cs) = starts_with part (c ∷ cs) || contains part cs

-- s.split(), where `word` is what stands before, last code point first
split_after : List ℕ → List ℕ → List (List ℕ)
split_after word [] = if is_empty word then [] else (reverse word ∷ [])
split_after word (c ∷ s) = elim (is_space c) [
  | true ↦ let rest = split_after [] s in if is_empty word then rest else (reverse word ∷ rest)
  | false ↦ split_after (c ∷ word) s
]

unfoldable pub split : List ℕ → List (List ℕ)
unfolding split_after
split s = split_after [] s

-- What Python knows of Unicode: `str.lower`, and whether `\w` matches a code point.
pub record Unicode : Type 0 where
  pub lower : List ℕ → List ℕ
  pub is_word : ℕ → Bool

-- A Python `int`; `negsuc n` is -(n + 1).
pub data ℤ : Type 0 where
  pos : ℕ → ℤ
  negsuc : ℕ → ℤ

abbrev pub negate : ℕ → ℤ
negate zero = pos 0
negate (suc n) = negsuc n

-- the digits of an integer literal: at least one, `_` only between two digits; `after` says
-- whether a digit stands just before
unfoldable pub digits : Bool → ℕ → List ℕ → Option ℕ
digits after n [] = if after then some n else none
digits after n (c ∷ cs) =
    let next = digits true (n * 10 + (c - 48)) cs in
    let gap = digits false n cs in
    if leb 48 c && leb c 57 then next else if c == 95 && after then gap else none

unfoldable pub unsigned : List ℕ → Option ℕ
unfolding digits
unsigned s = digits false 0 s

unfoldable pub signed : List ℕ → Option ℤ
signed [] = none
signed (c ∷ cs) =
    if c == 45
    then (elim (unsigned cs) [ none ↦ none | some n ↦ some (negate n) ])
    else (elim (unsigned (if c == 43 then cs else c ∷ cs)) [ none ↦ none | some n ↦ some (pos n) ])

-- `int(s)`, over ASCII digits; `none` is a ValueError
unfoldable pub py_int : List ℕ → Option ℤ
unfolding signed unsigned strip
py_int s = signed (strip s)

pub same_text→≡ : (s t : List ℕ) → same_text s t ≡ true → s ≡ t
unfolding same_text
same_text→≡ [] [] h = refl
same_text→≡ [] (c ∷ t) h = absurd (ground arith)
same_text→≡ (b ∷ s) [] h = absurd (ground arith)
same_text→≡ (b ∷ s) (c ∷ t) h = ground (arith, same_text→≡ s t, eq→≡ b c)

pub same_text_self : (s : List ℕ) → same_text s s ≡ true
unfolding same_text
same_text_self [] = refl
same_text_self (c ∷ s) = rw (eq_self c) (same_text_self s)

pub same_text_comm : (s t : List ℕ) → same_text s t ≡ same_text t s
unfolding same_text
same_text_comm [] [] = refl
same_text_comm [] (c ∷ t) = refl
same_text_comm (b ∷ s) [] = refl
same_text_comm (b ∷ s) (c ∷ t) = ground (arith, same_text_comm s t)
