-- ===== src/Evidence/Lines.antt =====
-- storage/cursors.py: the lines of a transcript, as Python's `splitlines` and `join` make them. A text
-- is the list of its code points.
use cognikernel.Prelude.{
  ℕ, Bool, true, false, ◌&&◌, ◌||◌, List, [], ◌∷◌, ◌++◌, leb, ◌==◌, if◌then◌else◌, strip, select,
}

-- the line boundaries of `str.splitlines`
unfoldable pub is_break : ℕ → Bool
is_break c = (leb 10 c && leb c 13) || (leb 28 c && leb c 30) || c == 133 || c == 8232 || c == 8233

-- a character before the lines that follow it
unfoldable pub extend : ℕ → List (List ℕ) → List (List ℕ)
extend c [] = (c ∷ []) ∷ []
extend c (l ∷ ls) = (c ∷ l) ∷ ls

-- `str.splitlines`; the flag says whether a carriage return stands just before, which with a line
-- feed makes one boundary
unfoldable pub split_lines : Bool → List ℕ → List (List ℕ)
unfolding is_break extend
split_lines cr [] = []
split_lines cr (c ∷ cs) =
    let rest = split_lines (c == 13) cs in
    if cr && c == 10 then rest else if is_break c then [] ∷ rest else extend c rest

-- `if ln.strip()`
unfoldable pub has_text : List ℕ → Bool
has_text line = elim (strip line) [ [] ↦ false | _ ∷ _ ↦ true ]

-- [ln for ln in jsonl_text.splitlines() if ln.strip()]
unfoldable pub lines_of : List ℕ → List (List ℕ)
unfolding split_lines has_text
lines_of text = select has_text (split_lines false text)

-- "\n".join(lines)
unfoldable pub join_lines : List (List ℕ) → List ℕ
join_lines [] = []
join_lines (l ∷ []) = l
join_lines (l ∷ m ∷ ls) = l ++ 10 ∷ join_lines (m ∷ ls)
