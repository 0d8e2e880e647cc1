-- ===== src/Ingest/Parser/Loop/Safe.antt =====
-- app/ingest/parser.py: the blocks that `parse_file_blocks` lets through.
use llm_wiki_engine.Prelude.{
  ◌≡◌, true, false, Option, none, some, List, [], ◌∷◌, arith, inl, inr, Bool-cases, Option-cases,
  All, All-append,
}
use llm_wiki_engine.Text.{Text, codes, strip, join, is_empty, split_on}
use llm_wiki_engine.Ingest.Parser.{
  is_safe_ingest_path, ParsedFileBlock, ParseState, push_block, file_opener, file_closer,
}
use llm_wiki_engine.Ingest.Parser.Loop.{
  close_unclosed, open_file, close_file, close_review, add_line, parse_rest, parse_review_line,
  parse_line, parse_lines, finish, parse_file_blocks, initial_state,
}

-- A block that may be written.
abbrev pub IsGood : ParsedFileBlock → Type 0
IsGood b = (is_safe_ingest_path b.path ≡ true) × (is_empty b.content ≡ false)

abbrev SafeOpen : Option Text → Type 0
SafeOpen none = Unit
SafeOpen (some path) = is_safe_ingest_path path ≡ true

abbrev IsFine : ParseState → Type 0
IsFine s = All IsGood s.blocks × SafeOpen s.current_path

push_block-AllGood :
    (path : Text) (lines : List Text) (bs : List ParsedFileBlock)
    → is_safe_ingest_path path ≡ true
    → All IsGood bs
    → All IsGood (push_block path lines bs)
unfolding push_block
push_block-AllGood path lines bs h g =
    elim (Bool-cases (is_empty (strip (join (codes "\n") lines)))) [
      | inl e ↦ rw (e, push_block) g
      | inr e ↦ rw (e, push_block) (All-append IsGood bs _ g ((h, e), tt))
    ]

close_unclosed-AllGood : (s : ParseState) → IsFine s → All IsGood (close_unclosed s).blocks
unfolding close_unclosed
close_unclosed-AllGood s (g, o) = go s.current_path o
  where
    go :
        (c : Option Text)
        → SafeOpen c
        → All IsGood (close_unclosed (record s { current_path = c })).blocks
    go none o = g
    go (some path) o = push_block-AllGood path s.current_lines s.blocks o g

open_file-IsFine : (path : Text) (s : ParseState) → IsFine s → IsFine (open_file path s)
unfolding open_file
open_file-IsFine path s f = elim (Bool-cases (is_safe_ingest_path path)) [
  | inl e ↦ rw (e, open_file) (close_unclosed-AllGood s f, e)
  | inr e ↦ rw (e, open_file) (close_unclosed-AllGood s f, tt)
]

close_file-IsFine : (s : ParseState) → IsFine s → IsFine (close_file s)
unfolding close_file
close_file-IsFine s (g, o) = go s.current_path o
  where
    go : (c : Option Text) → SafeOpen c → IsFine (close_file (record s { current_path = c }))
    go none o = (g, o)
    go (some path) o = (push_block-AllGood path s.current_lines s.blocks o g, tt)

add_line-IsFine : (line : Text) (s : ParseState) → IsFine s → IsFine (add_line line s)
unfolding add_line
add_line-IsFine line s f = ground arith

parse_rest-IsFine : (line t : Text) (s : ParseState) → IsFine s → IsFine (parse_rest line t s)
unfolding parse_rest close_review
parse_rest-IsFine line t s f = ground (arith, add_line-IsFine line s f)

parse_review_line-IsFine :
    (line t : Text) (s : ParseState) → IsFine s → IsFine (parse_review_line line t s)
unfolding parse_review_line
parse_review_line-IsFine line t s f = ground (arith, parse_rest-IsFine line t s f)

parse_line-IsFine : (line : Text) (s : ParseState) → IsFine s → IsFine (parse_line line s)
unfolding parse_line
parse_line-IsFine line s f = elim (Option-cases (file_opener (strip line))) [
  | inl e ↦
      rw (e, parse_line)
        (elim (Bool-cases (file_closer (strip line))) [
          | inl c ↦ rw (c, parse_line) (close_file-IsFine s f)
          | inr c ↦ rw (c, parse_line) (parse_review_line-IsFine line (strip line) s f)
        ])
  | inr (path, e) ↦ rw (e, parse_line) (open_file-IsFine path s f)
]

parse_lines-IsFine : (lines : List Text) (s : ParseState) → IsFine s → IsFine (parse_lines lines s)
unfolding parse_lines
parse_lines-IsFine [] s f = f
parse_lines-IsFine (line ∷ lines) s f =
    parse_lines-IsFine lines (parse_line line s) (parse_line-IsFine line s f)

finish-AllGood : (s : ParseState) → IsFine s → All IsGood (finish s).blocks
unfolding finish
finish-AllGood s (g, o) = go s.current_path o
  where
    go : (c : Option Text) → SafeOpen c → All IsGood (finish (record s { current_path = c })).blocks
    go none o = g
    go (some path) o = push_block-AllGood path s.current_lines s.blocks o g

-- Whatever the model generates, every block that the parser returns has a path that
-- `is_safe_ingest_path` accepts and a content that is not empty.
pub parse_file_blocks-AllGood : (text : Text) → All IsGood (parse_file_blocks text).blocks
unfolding parse_file_blocks
parse_file_blocks-AllGood text =
    finish-AllGood (parse_lines (split_on b'\n' text) initial_state)
      (parse_lines-IsFine (split_on b'\n' text) initial_state (tt, tt))
