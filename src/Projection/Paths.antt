-- ===== src/Projection/Paths.antt =====
-- utils/paths.py: the canonical form of a relative path. No project root is given, as none is where
-- projections are built.
use Prim.Native.Char.{Char, code}
use cognikernel.Prelude.{
  str_eq, ℕ, zero, suc, ◌<◌, ◌≤◌, ◌≡◌, refl, String, Bool, true, false, ◌&&◌, ◌||◌, List, [], ◌∷◌,
  arith, ◌==◌, if◌then◌else◌, Bool-cases, inl, inr, codes, is_space, length, starts_with, contains,
}
use mathlib.Core.List
use mathlib.Core.List.{reverse}

abbrev pub chars : String → List Char
chars String.[] = []
chars (String.◌∷◌ c s) = c ∷ chars s

abbrev pub text_of : List Char → String
text_of [] = ""
text_of (c ∷ cs) = String.◌∷◌ c (text_of cs)

abbrev slash : Char
slash = "/"

unfoldable pub is_slash : Char → Bool
is_slash c = code c == 47

unfoldable pub strip_left : List Char → List Char
strip_left [] = []
strip_left (c ∷ s) = if is_space (code c) then strip_left s else c ∷ s

unfoldable pub drop_slashes : List Char → List Char
unfolding is_slash
drop_slashes [] = []
drop_slashes (c ∷ s) = if is_slash c then drop_slashes s else c ∷ s

-- s.replace("//", "/")
unfoldable pub squeeze : List Char → List Char
unfolding is_slash
squeeze [] = []
squeeze (c ∷ []) = c ∷ []
squeeze (c ∷ d ∷ s) = elim (is_slash c && is_slash d) [
  | true ↦ slash ∷ squeeze s
  | false ↦ c ∷ squeeze (d ∷ s)
]

-- "//" in s
unfoldable pub has_double : List Char → Bool
unfolding is_slash
has_double [] = false
has_double (c ∷ []) = false
has_double (c ∷ d ∷ s) = (is_slash c && is_slash d) || has_double (d ∷ s)

-- the loop over the doubled slashes, which has `n` rounds left
unfoldable pub squeeze_all : ℕ → List Char → List Char
unfolding squeeze has_double
squeeze_all zero s = s
squeeze_all (suc n) s = elim (has_double s) [ true ↦ squeeze_all n (squeeze s) | false ↦ s ]

-- the loop over a leading "./"
unfoldable pub drop_dots : List Char → List Char
unfolding is_slash
drop_dots [] = []
drop_dots (c ∷ []) = c ∷ []
drop_dots (c ∷ d ∷ s) = elim (code c == 46 && is_slash d) [ true ↦ drop_dots s | false ↦ c ∷ d ∷ s ]

unfoldable pub looks_absolute : List Char → Bool
unfolding is_slash
looks_absolute [] = false
looks_absolute (c ∷ []) = is_slash c
looks_absolute (c ∷ d ∷ s) = is_slash c || code d == 58

-- a trailing slash goes where it is not all of the path
unfoldable pub drop_trailing : List Char → List Char
unfolding drop_slashes
drop_trailing [] = []
drop_trailing (c ∷ []) = c ∷ []
drop_trailing (c ∷ d ∷ s) = reverse (drop_slashes (reverse (c ∷ d ∷ s)))

abbrev points : List Char → List ℕ
points = List.map code

abbrev is_text : String → List Char → Bool
is_text text s = str_eq (text_of s) text

unfoldable pub climbs : List Char → Bool
climbs s =
    starts_with (codes "../") (points s) || contains (codes "/../") (points s) || is_text ".." s

unfoldable pub relative_path : List Char → List Char
unfolding drop_dots drop_trailing climbs
relative_path s = let short = drop_trailing (drop_dots s) in if climbs short then [] else short

abbrev slashed : List Char → List Char
slashed = List.map (λ c. if code c == 92 then slash else c)

-- the empty path is the failure
unfoldable pub canonicalize_path : String → String
unfolding strip_left squeeze_all looks_absolute relative_path
canonicalize_path raw =
    let stripped = reverse (strip_left (reverse (strip_left (chars raw)))) in
    let s = squeeze_all (length stripped) (slashed stripped) in
    text_of (if is_text "." s || looks_absolute s then [] else relative_path s)

squeeze-short : (s : List Char) → length (squeeze s) ≤ length s
unfolding squeeze
squeeze-short [] = omega arith
squeeze-short (c ∷ []) = omega arith
squeeze-short (c ∷ d ∷ s) = elim (Bool-cases (is_slash c && is_slash d)) [
  | inl t ↦ rw (t, length) (omega (arith, squeeze-short s))
  | inr t ↦ rw (t, length) (omega (arith, squeeze-short (d ∷ s)))
]

squeeze-shorter : (s : List Char) → has_double s ≡ true → length (squeeze s) < length s
unfolding squeeze has_double
squeeze-shorter [] e = let never = e in cc
squeeze-shorter (c ∷ []) e = let never = e in cc
squeeze-shorter (c ∷ d ∷ s) e = elim (Bool-cases (is_slash c && is_slash d)) [
  | inl t ↦ rw (t, length) (omega (arith, squeeze-short s))
  | inr t ↦ rw (t, length) (let rest = squeeze-shorter (d ∷ s) (rw t at e) in omega (arith, rest))
]

-- As many rounds as there are characters are enough for the loop to end.
squeeze_all-enough_fuel :
    (n : ℕ) (s : List Char) → length s ≤ n → has_double (squeeze_all n s) ≡ false
unfolding squeeze_all
squeeze_all-enough_fuel zero [] h = unfold has_double in refl
squeeze_all-enough_fuel zero (c ∷ s) h = absurd (omega arith)
squeeze_all-enough_fuel (suc n) s h = elim (Bool-cases (has_double s)) [
  | inl t ↦
      let shorter = squeeze-shorter s t in
      rw (t, has_double) (squeeze_all-enough_fuel n (squeeze s) (omega (arith, shorter)))
  | inr t ↦ rw (t, has_double) t
]
