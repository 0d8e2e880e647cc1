-- ===== src/Text/Defs.antt =====
-- `str.strip`, `split`, `join`, `startswith`, `endswith`, and slices.
use Prim.Native.Char.{code}
use llm_wiki_engine.Prelude.{
  Option, none, some, ◌+◌, ℕ, ◌-◌, String, Bool, true, false, ◌&&◌, ◌||◌, List, [], ◌∷◌, ◌++◌, leb,
  nat_eq, ◌==◌, take, drop, if◌then◌else◌,
}

-- A string as its code points.
abbrev pub Text : Type 0
Text = List ℕ

-- The code points of a literal.
abbrev pub codes : String → Text
codes String.[] = []
codes (String.◌∷◌ c s) = code c ∷ codes s

abbrev between : ℕ → ℕ → ℕ → Bool
between lo hi c = leb lo c && leb c hi

-- `str.isspace` of one character, which is also `\s`.
unfoldable pub is_space : ℕ → Bool
is_space c =
    between 9 13 c
    || between 28 32 c
    || c == 0x85
    || c == 0xA0
    || c == 0x1680
    || between 0x2000 0x200A c
    || between 0x2028 0x2029 c
    || c == 0x202F
    || c == 0x205F
    || c == 0x3000

unfoldable pub lstrip : Text → Text
unfolding is_space
lstrip [] = []
lstrip (c ∷ s) = if is_space c then lstrip s else c ∷ s

-- Puts a character before a text of which trailing space was stripped.
unfoldable pub cons_stripped : ℕ → Text → Text
unfolding is_space
cons_stripped c [] = if is_space c then [] else c ∷ []
cons_stripped c (d ∷ s) = c ∷ d ∷ s

unfoldable pub rstrip : Text → Text
unfolding cons_stripped
rstrip [] = []
rstrip (c ∷ s) = cons_stripped c (rstrip s)

unfoldable pub strip : Text → Text
unfolding lstrip rstrip
strip s = rstrip (lstrip s)

-- Puts a character before the first part of a split.
unfoldable pub cons_part : ℕ → List Text → List Text
cons_part c [] = (c ∷ []) ∷ []
cons_part c (p ∷ ps) = (c ∷ p) ∷ ps

-- `s.split(sep)` for a separator of one character.
unfoldable pub split_on : ℕ → Text → List Text
unfolding cons_part
split_on sep [] = [] ∷ []
split_on sep (c ∷ s) = let rest = split_on sep s in if c == sep then [] ∷ rest else cons_part c rest

-- `sep.join(parts)`
unfoldable pub join : Text → List Text → Text
join sep [] = []
join sep (p ∷ []) = p
join sep (p ∷ q ∷ ps) = p ++ (sep ++ join sep (q ∷ ps))

unfoldable pub starts_with : Text → Text → Bool
starts_with [] s = true
starts_with (p ∷ ps) [] = false
starts_with (p ∷ ps) (c ∷ s) = p == c && starts_with ps s

-- `s.endswith(c)` for one character.
unfoldable pub ends_in : ℕ → Text → Bool
ends_in c [] = false
ends_in c (d ∷ []) = c == d
ends_in c (d ∷ e ∷ s) = ends_in c (e ∷ s)

unfoldable pub text_beq : Text → Text → Bool
text_beq [] [] = true
text_beq [] (d ∷ t) = false
text_beq (c ∷ s) [] = false
text_beq (c ∷ s) (d ∷ t) = c == d && text_beq s t

abbrev pub is_empty : Text → Bool
is_empty [] = true
is_empty (c ∷ s) = false

-- s[start:stop] for a start and a stop that are not negative.
abbrev pub slice : ℕ → ℕ → Text → Text
slice start stop s = take (stop - start) (drop start s)

-- A character as `re.IGNORECASE` compares it with a small ASCII letter.
unfoldable pub fold_case : ℕ → ℕ
fold_case c =
    if leb b'A' c && leb c b'Z'
    then c + 32
    else if c == 0x212A
    then b'k'
    else if c == 0x130 || c == 0x131
    then b'i'
    else if c == 0x17F
    then b's'
    else c

-- What follows a literal at the start of a text.
unfoldable pub match_literal : Text → Text → Option Text
unfolding fold_case
match_literal [] s = some s
match_literal (p ∷ ps) [] = none
match_literal (p ∷ ps) (c ∷ s) =
    let rest = match_literal ps s in if p == fold_case c then rest else none

-- needle in s
unfoldable pub occurs_in : Text → Text → Bool
unfolding starts_with
occurs_in needle [] = is_empty needle
occurs_in needle (c ∷ s) = starts_with needle (c ∷ s) || occurs_in needle s

-- The text that a read in text mode makes of the text of a file: a carriage return, with the line
-- feed behind it if there is one, becomes a line feed.
unfoldable pub newlines_from : Bool → Text → Text
newlines_from after_cr [] = []
newlines_from after_cr (c ∷ s) =
    let cr = newlines_from true s in
    let rest = newlines_from false s in
    if c == 13 then 10 ∷ cr else if after_cr && c == 10 then rest else c ∷ rest

unfoldable pub newlines : Text → Text
unfolding newlines_from
newlines s = newlines_from false s
