-- ===== src/Ingest/Parser/Loop.antt =====
-- app/ingest/parser.py: the loop of `parse_file_blocks` over the lines.
pub mod Safe
pub mod Sections
pub mod Unclosed
use llm_wiki_engine.Prelude.{
  ℕ, Bool, true, false, not, ◌&&◌, Option, none, some, List, [], ◌∷◌, ◌++◌, map, drop,
  if◌then◌else◌, nat_eq, ◌==◌,
}
use llm_wiki_engine.Text.{Text, codes, strip, split_on, join, starts_with, cons_part}
use llm_wiki_engine.Ingest.Parser.{
  is_safe_ingest_path, ParsedFileBlock, ReviewBlock, Warning, unclosed, rejected_path,
  unclosed_at_end, ParseState, ParseResult, file_opener, file_closer, review_opener, review_closer,
  push_block,
}

-- An opener closes the block that is still open.
unfoldable pub close_unclosed : ParseState → ParseState
unfolding push_block
close_unclosed s = elim s.current_path [
  | none ↦ s
  | some path ↦ record s {
    warnings = s.warnings ++ unclosed path ∷ [];
    blocks = push_block path s.current_lines s.blocks;
  }
]

unfoldable pub open_file : Text → ParseState → ParseState
unfolding close_unclosed is_safe_ingest_path
open_file path s =
    let s1 = close_unclosed s in
    if is_safe_ingest_path path
    then record s1 { current_path = some path; current_lines = [] }
    else record s1 {
      warnings = s1.warnings ++ rejected_path path ∷ [];
      current_path = none;
      current_lines = [];
    }

unfoldable pub close_file : ParseState → ParseState
unfolding push_block
close_file s = elim s.current_path [
  | none ↦ s
  | some path ↦ record s {
    blocks = push_block path s.current_lines s.blocks;
    current_path = none;
    current_lines = [];
  }
]

-- `review_header.split("|", 1)`: the first part, and the second one if there is a bar.
unfoldable pub split_header : Text → Text × Option Text
split_header [] = ([], none)
split_header (c ∷ s) =
    let (first, second) = split_header s in if c == b'|' then ([], some s) else (c ∷ first, second)

-- One round of the loop over the lines of a review, with the lines of its description.
unfoldable pub review_line : ReviewBlock × List Text → Text → ReviewBlock × List Text
unfolding starts_with split_on strip
review_line (review, lines) rl =
    if starts_with (codes "OPTIONS:") rl
    then (record review { options = map strip (split_on b'|' (drop 8 rl)) }, lines)
    else if starts_with (codes "PAGES:") rl
    then (record review { pages = map strip (split_on b',' (drop 6 rl)) }, lines)
    else if starts_with (codes "SEARCH:") rl
    then (record review { search_queries = map strip (split_on b'|' (drop 7 rl)) }, lines)
    else (review, lines ++ rl ∷ [])

unfoldable pub review_loop : ReviewBlock × List Text → List Text → ReviewBlock × List Text
unfolding review_line
review_loop acc [] = acc
review_loop acc (rl ∷ rls) = review_loop (review_line acc rl) rls

-- `parts[1].strip() if len(parts) > 1 else rtype`
abbrev title_or : Text → Option Text → Text
title_or rtype none = rtype
title_or rtype (some t) = strip t

-- The review block with the type and the title of its header.
abbrev new_review : Text × Option Text → ReviewBlock
new_review (first, second) = record {
  review_type = strip first;
  title = title_or (strip first) second;
  description = [];
  options = [];
  pages = [];
  search_queries = [];
}

unfoldable pub close_review : ParseState → ParseState
unfolding split_header review_loop strip join
close_review s =
    let (review, lines) =
      review_loop (new_review (split_header s.review_header), []) s.review_lines in
    record s {
      reviews = s.reviews ++ record review { description = strip (join (codes "\n") lines) } ∷ [];
      in_review = false;
    }

-- The last `if` of the loop.
unfoldable pub add_line : Text → ParseState → ParseState
add_line line s =
    if s.in_review
    then record s { review_lines = s.review_lines ++ line ∷ [] }
    else elim s.current_path [
      | none ↦ s
      | some path ↦ record s { current_lines = s.current_lines ++ line ∷ [] }
    ]

-- The tests for a review, on a line that neither opens nor closes a file.
unfoldable pub parse_rest : Text → Text → ParseState → ParseState
unfolding close_review add_line
parse_rest line stripped s =
    if review_closer stripped && s.in_review then close_review s else add_line line s

unfoldable pub parse_review_line : Text → Text → ParseState → ParseState
unfolding parse_rest
parse_review_line line stripped s = elim s.current_path [
  | some path ↦ parse_rest line stripped s
  | none ↦ elim (review_opener stripped) [
    | none ↦ parse_rest line stripped s
    | some header ↦ record s { in_review = true; review_header = header; review_lines = [] }
  ]
]

unfoldable pub parse_line : Text → ParseState → ParseState
unfolding open_file close_file parse_review_line
parse_line line s =
    let stripped = strip line in
    elim (file_opener stripped) [
      | some path ↦ open_file path s
      | none ↦ if file_closer stripped then close_file s else parse_review_line line stripped s
    ]

unfoldable pub parse_lines : List Text → ParseState → ParseState
unfolding parse_line
parse_lines [] s = s
parse_lines (line ∷ lines) s = parse_lines lines (parse_line line s)

abbrev pub initial_state : ParseState
initial_state = record {
  blocks = [];
  reviews = [];
  warnings = [];
  current_path = none;
  current_lines = [];
  in_review = false;
  review_header = [];
  review_lines = [];
}

-- The statements after the loop.
unfoldable pub finish : ParseState → ParseResult
unfolding push_block
finish s = elim s.current_path [
  | none ↦ record { blocks = s.blocks; reviews = s.reviews; warnings = s.warnings }
  | some path ↦ record {
    blocks = push_block path s.current_lines s.blocks;
    reviews = s.reviews;
    warnings = s.warnings ++ unclosed_at_end path ∷ [];
  }
]

unfoldable pub parse_file_blocks : Text → ParseResult
unfolding finish parse_lines split_on
parse_file_blocks text = finish (parse_lines (split_on b'\n' text) initial_state)
