-- ===== src/Embedding/Chunker.antt =====
-- app/embedding/chunker.py: the split of a page into overlapping chunks. Positions are numbers,
-- which no path makes negative; the five split patterns are read off their regular expressions.
pub mod SplitPoint
pub mod Windows
use llm_wiki_engine.Prelude.{
  ℕ, zero, suc, ◌+◌, ◌-◌, min, max, Bool, true, false, not, ◌&&◌, ◌||◌, Option, none, some, List,
  [], ◌∷◌, ◌++◌, map, ltb, leb, nat_eq, ◌==◌, length, take, drop, if◌then◌else◌,
}
use llm_wiki_engine.Text.{Text, codes, is_space, strip, split_on, join, is_empty, slice}

abbrev pub min_chunk_size : ℕ
min_chunk_size = 64

pub record Chunk : Type 0 where
  pub text : Text
  pub heading_path : Text
  pub chunk_index : ℕ

-- The number of `#` at the start, up to `n` of them, and what follows.
unfoldable pub hashes : ℕ → Text → ℕ × Text
hashes zero s = (0, s)
hashes (suc n) [] = (0, [])
hashes (suc n) (c ∷ s) =
    let (k, rest) = hashes n s in if c == b'#' then (suc k, rest) else (0, c ∷ s)

-- `^(#{1,6})\s+(.+)` on a line: the level and the stripped title.
unfoldable pub match_heading : Text → Option (ℕ × Text)
unfolding hashes is_space strip
match_heading line =
    let (level, rest) = hashes 6 line in
    elim rest [
      | [] ↦ none
      | c ∷ title ↦
          if ltb 0 level && is_space c && not (is_empty title)
          then some (level, strip title)
          else none
    ]

-- The stack of headings, the last one first: those of the same or a deeper level are popped.
unfoldable pub pop_headings : ℕ → List (ℕ × Text) → List (ℕ × Text)
pop_headings level [] = []
pop_headings level ((l, h) ∷ hs) = if leb level l then pop_headings level hs else (l, h) ∷ hs

abbrev replicate_char : ℕ → ℕ → Text
replicate_char zero c = []
replicate_char (suc n) c = c ∷ replicate_char n c

unfoldable pub push_line : List (ℕ × Text) → Text → List (ℕ × Text)
unfolding match_heading pop_headings
push_line stack line = elim (match_heading line) [
  | none ↦ stack
  | some h ↦ (h.0, replicate_char h.0 b'#' ++ (b' ' ∷ h.1)) ∷ pop_headings h.0 stack
]

unfoldable pub heading_stack : List (ℕ × Text) → List Text → List (ℕ × Text)
unfolding push_line
heading_stack stack [] = stack
heading_stack stack (line ∷ lines) = heading_stack (push_line stack line) lines

-- The titles of a stack, the last heading at the end.
unfoldable pub titles : List (ℕ × Text) → List Text → List Text
titles [] out = out
titles ((l, h) ∷ hs) out = titles hs (h ∷ out)

unfoldable pub extract_heading_path : Text → Text
unfolding heading_stack titles split_on join
extract_heading_path text = join (codes " > ") (titles (heading_stack [] (split_on b'\n' text)) [])

-- `\n#{1,6}\s`, `\n\n`, `\n`, `[.!?]\s` and `\s`: the length of a match at the start of a text.
pub data SplitPattern : Type 0 where
  heading paragraph newline sentence word : SplitPattern

unfoldable pub match_pattern : SplitPattern → Text → Option ℕ
unfolding hashes is_space
match_pattern heading (c ∷ s) =
    let (level, rest) = hashes 6 s in
    elim rest [
      | [] ↦ none
      | d ∷ more ↦ if c == b'\n' && ltb 0 level && is_space d then some (level + 2) else none
    ]
match_pattern paragraph (c ∷ d ∷ s) = if c == b'\n' && d == b'\n' then some 2 else none
match_pattern newline (c ∷ s) = if c == b'\n' then some 1 else none
match_pattern sentence (c ∷ d ∷ s) =
    if (c == b'.' || c == b'!' || c == b'?') && is_space d then some 2 else none
match_pattern word (c ∷ s) = if is_space c then some 1 else none
match_pattern _ _ = none

-- `[m.start() for m in pattern.finditer(text)]`, from position `pos` on; `skip` characters still
-- belong to the last match.
unfoldable pub finditer : SplitPattern → ℕ → ℕ → Text → List ℕ
unfolding match_pattern
finditer p pos skip [] = []
finditer p pos (suc skip) (c ∷ s) = finditer p (suc pos) skip s
finditer p pos zero (c ∷ s) = elim (match_pattern p (c ∷ s)) [
  | none ↦ finditer p (suc pos) 0 s
  | some n ↦ pos ∷ finditer p (suc pos) (n - 1) s
]

-- abs(a - b)
abbrev pub distance : ℕ → ℕ → ℕ
distance a b = if leb a b then b - a else a - b

-- The inner loop of `_find_split_point`: the first match that is nearer to the target than `best`.
unfoldable pub nearer : ℕ → ℕ → List ℕ → ℕ
nearer target best [] = best
nearer target best (pos ∷ positions) =
    let rest = nearer target best positions in
    if ltb (distance pos target) (distance best target) && ltb min_chunk_size pos then pos else rest

-- The outer loop, which stops at the first pattern that moved `best`.
unfoldable pub try_patterns : Text → ℕ → ℕ → List SplitPattern → ℕ
unfolding finditer nearer
try_patterns text target best [] = best
try_patterns text target best (p ∷ ps) =
    let best' = nearer target best (finditer p 0 0 (take (target + 100) text)) in
    let rest = try_patterns text target best' ps in if best' == target then rest else best'

abbrev pub split_patterns : List SplitPattern
split_patterns = heading ∷ paragraph ∷ newline ∷ sentence ∷ word ∷ []

unfoldable pub find_split_point : Text → ℕ → ℕ
unfolding try_patterns
find_split_point text target = max (try_patterns text target target split_patterns) min_chunk_size

-- The end of the window that starts at `pos`.
unfoldable pub window_end : Text → ℕ → ℕ → ℕ
window_end text chunk_size pos =
    let end = min (pos + chunk_size) (length text) in
    if ltb end (length text) then pos + find_split_point (slice pos end text) chunk_size else end

-- The chunk of a window, if it holds more than space, and the index of the next one.
unfoldable pub emit : Text → ℕ → ℕ → ℕ → List Chunk
emit text pos end idx =
    let chunk_text = strip (slice pos end text) in
    if is_empty chunk_text
    then []
    else (record {
      text = chunk_text;
      heading_path = extract_heading_path (take end text);
      chunk_index = idx;
    }
        ∷ [])

-- The while loop, with fuel; `none` means that the fuel ran out.
unfoldable pub chunk_loop : ℕ → Text → ℕ → ℕ → ℕ → ℕ → Option (List Chunk)
chunk_loop zero text chunk_size overlap pos idx = none
chunk_loop (suc fuel) text chunk_size overlap pos idx =
    let end = window_end text chunk_size pos in
    let now = emit text pos end idx in
    let next = max (end - overlap) (pos + min_chunk_size) in
    let rest = chunk_loop fuel text chunk_size overlap next (idx + length now) in
    if ltb pos (length text)
    then (if leb (length text) next
        then some now
        else elim rest [ none ↦ none | some later ↦ some (now ++ later) ])
    else some []

unfoldable pub chunk_markdown : Text → ℕ → ℕ → Option (List Chunk)
chunk_markdown text chunk_size overlap =
    if is_empty (strip text)
    then some []
    else if leb (length text) chunk_size
    then some (
        record { text = strip text; heading_path = extract_heading_path text; chunk_index = 0 }
        ∷ [])
    else chunk_loop (length text) text chunk_size overlap 0 0
