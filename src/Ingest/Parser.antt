-- ===== src/Ingest/Parser.antt =====
-- app/ingest/parser.py: the FILE and REVIEW blocks of what the model generates. A regular
-- expression is matched against a stripped line, so it ends in no space and holds no line break.
pub mod Loop
pub mod Paths
use llm_wiki_engine.Prelude.{
  ℕ, ◌-◌, Bool, true, false, not, ◌&&◌, ◌||◌, Option, none, some, List, [], ◌∷◌, ◌++◌, map, any,
  all, ltb, leb, length, take, drop, nat_eq, ◌==◌, if◌then◌else◌,
}
use llm_wiki_engine.Text.{
  Text, codes, is_space, lstrip, strip, split_on, join, starts_with, ends_in, text_beq, is_empty,
  match_literal, cons_part,
}

-- The separators of `re.split(r"[/\\\\]", p)`
abbrev pub is_separator : ℕ → Bool
is_separator c = c == b'/' || c == 92

unfoldable pub split_segments : Text → List Text
unfolding cons_part
split_segments [] = [] ∷ []
split_segments (c ∷ s) =
    let rest = split_segments s in if is_separator c then [] ∷ rest else cons_part c rest

abbrev is_letter : ℕ → Bool
is_letter c = leb b'A' c && leb c b'Z' || leb b'a' c && leb c b'z'

-- `re.match(r"^[A-Za-z]:", p)`
unfoldable pub has_drive : Text → Bool
has_drive (c ∷ d ∷ s) = is_letter c && d == b':'
has_drive _ = false

-- A segment that the loop over the segments lets pass.
unfoldable pub is_safe_segment : Text → Bool
unfolding text_beq ends_in
is_safe_segment seg =
    if text_beq seg (codes "..")
    then false
    else if is_empty seg
    then true
    else not (ends_in b' ' seg || ends_in b'.' seg)

unfoldable pub is_safe_ingest_path : Text → Bool
unfolding strip split_segments has_drive is_safe_segment starts_with
is_safe_ingest_path p =
    if is_empty p || is_empty (strip p)
    then false
    else if any (λ c. leb c 0x1F) p
    then false
    else if starts_with (codes "/") p || starts_with (92 ∷ []) p
    then false
    else if has_drive p
    then false
    else if not (all is_safe_segment (split_segments p))
    then false
    else starts_with (codes "wiki/") p

pub record ParsedFileBlock : Type 0 where
  pub path : Text
  pub content : Text

pub record ReviewBlock : Type 0 where
  pub review_type : Text
  pub title : Text
  pub description : Text
  pub options : List Text
  pub pages : List Text
  pub search_queries : List Text

-- The warnings, by their format.
pub data Warning : Type 0 where
  unclosed rejected_path unclosed_at_end : Text → Warning

-- The variables of the loop.
pub record ParseState : Type 0 where
  pub blocks : List ParsedFileBlock
  pub reviews : List ReviewBlock
  pub warnings : List Warning
  pub current_path : Option Text
  pub current_lines : List Text
  pub in_review : Bool
  pub review_header : Text
  pub review_lines : List Text

pub record ParseResult : Type 0 where
  pub blocks : List ParsedFileBlock
  pub reviews : List ReviewBlock
  pub warnings : List Warning

-- What stands before a final `---`, if it is not empty.
unfoldable pub before_dashes : Text → Option Text
unfolding starts_with
before_dashes s =
    let n = length s - 3 in
    if ltb 3 (length s) && text_beq (drop n s) (codes "---") then some (take n s) else none

-- `^---\s*WORD:\s*(.+?)\s*---\s*$` on a stripped line: the stripped group.
unfoldable pub match_opener : Text → Text → Option Text
unfolding match_literal before_dashes lstrip strip
match_opener word line = elim (match_literal (codes "---") line) [
  | none ↦ none
  | some s ↦ elim (match_literal word (lstrip s)) [
    | none ↦ none
    | some rest ↦ elim (before_dashes rest) [ none ↦ none | some body ↦ some (strip body) ]
  ]
]

-- `\s+`
abbrev skip_spaces : Text → Option Text
skip_spaces [] = none
skip_spaces (c ∷ s) = if is_space c then some (lstrip s) else none

-- `^---\s*END\s+WORD\s*---\s*$` on a stripped line
unfoldable pub match_closer : Text → Text → Bool
unfolding match_literal lstrip text_beq is_space
match_closer word line = elim (match_literal (codes "---") line) [
  | none ↦ false
  | some s ↦ elim (match_literal (codes "end") (lstrip s)) [
    | none ↦ false
    | some s1 ↦ elim (skip_spaces s1) [
      | none ↦ false
      | some s2 ↦ elim (match_literal word s2) [
        | none ↦ false
        | some s3 ↦ text_beq (lstrip s3) (codes "---")
      ]
    ]
  ]
]

unfoldable pub file_opener : Text → Option Text
unfolding match_opener
file_opener = match_opener (codes "file:")

unfoldable pub file_closer : Text → Bool
unfolding match_closer
file_closer = match_closer (codes "file")

unfoldable pub review_opener : Text → Option Text
unfolding match_opener
review_opener = match_opener (codes "review:")

unfoldable pub review_closer : Text → Bool
unfolding match_closer
review_closer = match_closer (codes "review")

-- The block that ends here, unless its content is only space.
unfoldable pub push_block : Text → List Text → List ParsedFileBlock → List ParsedFileBlock
unfolding strip join
push_block path lines blocks =
    let content = strip (join (codes "\n") lines) in
    if is_empty content then blocks else blocks ++ record { path = path; content = content } ∷ []
