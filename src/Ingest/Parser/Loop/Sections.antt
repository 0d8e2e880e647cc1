-- ===== src/Ingest/Parser/Loop/Sections.antt =====
-- app/ingest/parser.py: what the parser makes of well-formed FILE sections.
use llm_wiki_engine.Prelude.{
  ◌≡◌, refl, ap, ◌∙◌, sym, filter, map, not, Bool-cases, inl, inr, true, false, none, some, List,
  [], ◌∷◌, ◌++◌, arith, All,
}
use mathlib.Core.List.{append_assoc, append-nil}
use llm_wiki_engine.Text.{Text, codes, strip, join, is_empty, Lacks, split_on-join}
use llm_wiki_engine.Ingest.Parser.{
  is_safe_ingest_path, ParsedFileBlock, ParseState, push_block, file_opener, file_closer,
}
use llm_wiki_engine.Ingest.Parser.Loop.{
  close_unclosed, open_file, close_file, add_line, parse_rest, parse_review_line, parse_line,
  parse_lines, finish, parse_file_blocks, initial_state,
}

-- The lines of a section that opens a file, gives its text and closes it.
pub record Section : Type 0 where
  pub opener : Text
  pub path : Text
  pub body : List Text
  pub closer : Text

abbrev pub lines_of : Section → List Text
lines_of x = x.opener ∷ (x.body ++ x.closer ∷ [])

-- A line of a body neither opens nor closes a file.
abbrev pub IsBody : Text → Type 0
IsBody l = (file_opener (strip l) ≡ none) × (file_closer (strip l) ≡ false)

pub record IsSection (x : Section) : Type 0 where
  pub opens : file_opener (strip x.opener) ≡ some x.path
  pub safe : is_safe_ingest_path x.path ≡ true
  pub plain : All IsBody x.body
  pub ends_it : file_opener (strip x.closer) ≡ none
  pub closes : file_closer (strip x.closer) ≡ true

-- The lines and the blocks of a list of sections.
abbrev pub lines_of_all : List Section → List Text
lines_of_all [] = []
lines_of_all (x ∷ xs) = lines_of x ++ lines_of_all xs

abbrev pub block_of : Section → ParsedFileBlock
block_of x = record { path = x.path; content = strip (join (codes "\n") x.body) }

-- The blocks of the sections whose text is not only space.
abbrev pub blocks_of : List Section → List ParsedFileBlock
blocks_of xs = filter (λ b. not (is_empty b.content)) (map block_of xs)

pub parse_lines-append :
    (xs ys : List Text) (s : ParseState)
    → parse_lines (xs ++ ys) s ≡ parse_lines ys (parse_lines xs s)
unfolding parse_lines
parse_lines-append [] ys s = refl
parse_lines-append (x ∷ xs) ys s = parse_lines-append xs ys (parse_line x s)

-- A state between two blocks.
abbrev IsClear : ParseState → Type 0
IsClear s = (s.current_path ≡ none) × (s.in_review ≡ false)

pub open_clear :
    (x : Section) (s : ParseState)
    → IsSection x
    → s.current_path ≡ none
    → parse_line x.opener s ≡ record s { current_path = some x.path; current_lines = [] }
unfolding parse_line open_file close_unclosed
open_clear x s w c = rw (w.opens, parse_line) (rw (w.safe, open_file) (rw (c, close_unclosed) refl))

-- Inside a file and outside a review, a line is kept.
keep_line :
    (l t path : Text) (s : ParseState)
    → s.in_review ≡ false
    → s.current_path ≡ some path
    → parse_review_line l t s ≡ record s { current_lines = s.current_lines ++ l ∷ [] }
unfolding parse_review_line parse_rest add_line
keep_line l t path s r c = ground arith

body_line :
    (l path : Text) (s : ParseState)
    → IsBody l
    → s.in_review ≡ false
    → s.current_path ≡ some path
    → parse_line l s ≡ record s { current_lines = s.current_lines ++ l ∷ [] }
unfolding parse_line
body_line l path s w r c =
    rw (w.0, parse_line) (rw (w.1, parse_line) (keep_line l (strip l) path s r c))

body_lines :
    (ls : List Text) (path : Text) (s : ParseState)
    → All IsBody ls
    → s.in_review ≡ false
    → s.current_path ≡ some path
    → parse_lines ls s ≡ record s { current_lines = s.current_lines ++ ls }
unfolding parse_lines
body_lines [] path s w r c = rw (append-nil s.current_lines) refl
body_lines (l ∷ ls) path s w r c = rw (body_line l path s w.0 r c) (
    body_lines ls path (record s { current_lines = s.current_lines ++ l ∷ [] }) w.1 r c
    ∙ rw (append_assoc s.current_lines (l ∷ []) ls) refl)

pub close_line :
    (x : Section) (s : ParseState)
    → IsSection x
    → s.current_path ≡ some x.path
    → parse_line x.closer s ≡ record s {
      blocks = push_block x.path s.current_lines s.blocks;
      current_path = none;
      current_lines = [];
    }
unfolding parse_line close_file
close_line x s w c =
    rw (w.ends_it, parse_line) (rw (w.closes, parse_line) (rw (c, close_file) refl))

section_step :
    (x : Section) (s : ParseState)
    → IsSection x
    → IsClear s
    → parse_lines (lines_of x) s ≡ record s {
      blocks = push_block x.path x.body s.blocks;
      current_path = none;
      current_lines = [];
    }
unfolding parse_lines
section_step x s w (c, r) =
    parse_lines-append (x.opener ∷ x.body) (x.closer ∷ []) s
    ∙ ap (parse_line x.closer) (
        ap (parse_lines x.body) (open_clear x s w c)
        ∙ body_lines x.body x.path (record s { current_path = some x.path; current_lines = [] })
            w.plain r refl)
    ∙ close_line x (record s { current_path = some x.path; current_lines = x.body }) w refl

push_block-blocks_of :
    (x : Section) (xs : List Section) (bs : List ParsedFileBlock)
    → push_block x.path x.body bs ++ blocks_of xs ≡ bs ++ blocks_of (x ∷ xs)
unfolding push_block
push_block-blocks_of x xs bs = elim (Bool-cases (is_empty (block_of x).content)) [
  | inl e ↦ rw (e, push_block) refl
  | inr e ↦ rw (e, push_block) (append_assoc bs (block_of x ∷ []) (blocks_of xs))
]

-- The state after some blocks, with nothing open.
abbrev between_blocks : List ParsedFileBlock → ParseState
between_blocks bs = record initial_state { blocks = bs }

sections_loop :
    (xs : List Section) (bs : List ParsedFileBlock)
    → All IsSection xs
    → parse_lines (lines_of_all xs) (between_blocks bs) ≡ between_blocks (bs ++ blocks_of xs)
sections_loop [] bs w = unfold parse_lines in ap between_blocks (sym (append-nil bs))
sections_loop (x ∷ xs) bs w =
    parse_lines-append (lines_of x) (lines_of_all xs) (between_blocks bs)
    ∙ ap (parse_lines (lines_of_all xs)) (section_step x (between_blocks bs) w.0 (refl, refl))
    ∙ sections_loop xs (push_block x.path x.body bs) w.1
    ∙ ap between_blocks (push_block-blocks_of x xs bs)

-- A text of well-formed FILE sections, one after the other, is parsed into their blocks, in order,
-- but for those whose text is only space, with no review and no warning.
pub parse_file_blocks-sections :
    (x : Section) (xs : List Section)
    → All IsSection (x ∷ xs)
    → All (Lacks b'\n') (lines_of_all (x ∷ xs))
    → parse_file_blocks (join (codes "\n") (lines_of_all (x ∷ xs)))
      ≡ record { blocks = blocks_of (x ∷ xs); reviews = []; warnings = [] }
unfolding parse_file_blocks finish
parse_file_blocks-sections x xs w h =
    ap (λ ls. finish (parse_lines ls initial_state)) (split_on-join b'\n' x.opener _ h.0 h.1)
    ∙ ap finish (sections_loop (x ∷ xs) [] w)
