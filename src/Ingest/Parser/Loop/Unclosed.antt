-- ===== src/Ingest/Parser/Loop/Unclosed.antt =====
-- What an unclosed REVIEW block does to the FILE section that follows it.
use llm_wiki_engine.Prelude.{
  ◌≡◌, refl, ap, ◌∙◌, false, true, none, some, List, [], ◌∷◌, ◌++◌, arith, All,
}
use llm_wiki_engine.Text.{Text, codes, strip, join, Lacks, split_on-join}
use llm_wiki_engine.Ingest.Parser.{ParseState, push_block, review_opener, review_closer}
use llm_wiki_engine.Ingest.Parser.Loop.{
  add_line, parse_rest, parse_review_line, parse_line, parse_lines, finish, parse_file_blocks,
  initial_state,
}
use llm_wiki_engine.Ingest.Parser.Loop.Sections.{
  Section, IsSection, IsBody, lines_of, parse_lines-append, open_clear, close_line,
}

-- The line opens a review, and it neither opens nor closes a file.
abbrev pub OpensReview : Text → Text → Type 0
OpensReview header l = IsBody l × (review_opener (strip l) ≡ some header)

review_step :
    (l header : Text)
    → OpensReview header l
    → parse_line l initial_state ≡ record initial_state { in_review = true; review_header = header }
unfolding parse_line parse_review_line
review_step l header w =
    rw (w.0.0, parse_line) (rw (w.0.1, parse_line) (rw (w.1, parse_review_line) refl))

lost_line :
    (l t path : Text) (s : ParseState)
    → review_closer t ≡ false
    → s.in_review ≡ true
    → s.current_path ≡ some path
    → parse_review_line l t s ≡ record s { review_lines = s.review_lines ++ l ∷ [] }
unfolding parse_review_line parse_rest add_line
lost_line l t path s n r c = ground arith

-- A line of a body that does not close a review.
abbrev pub IsLost : Text → Type 0
IsLost l = IsBody l × (review_closer (strip l) ≡ false)

lost_step :
    (l path : Text) (s : ParseState)
    → IsLost l
    → s.in_review ≡ true
    → s.current_path ≡ some path
    → parse_line l s ≡ record s { review_lines = s.review_lines ++ l ∷ [] }
unfolding parse_line
lost_step l path s w r c =
    rw (w.0.0, parse_line) (rw (w.0.1, parse_line) (lost_line l (strip l) path s w.1 r c))

lost_lines :
    (ls : List Text) (path : Text) (s : ParseState)
    → All IsLost ls
    → s.in_review ≡ true
    → s.current_path ≡ some path
    → (kept : List Text) × (parse_lines ls s ≡ record s { review_lines = kept })
unfolding parse_lines
lost_lines [] path s w r c = (s.review_lines, refl)
lost_lines (l ∷ ls) path s w r c =
    let (kept, e) =
      lost_lines ls path (record s { review_lines = s.review_lines ++ l ∷ [] }) w.1 r c in
    (kept, ap (parse_lines ls) (lost_step l path s w.0 r c) ∙ e)

lost_section :
    (x : Section) (s : ParseState)
    → IsSection x
    → All IsLost x.body
    → s.in_review ≡ true
    → s.current_path ≡ none
    → s.blocks ≡ []
    → s.reviews ≡ []
    → s.warnings ≡ []
    → finish (parse_lines (lines_of x) s) ≡ record { blocks = []; reviews = []; warnings = [] }
unfolding parse_lines finish push_block
lost_section x s w n r c b v u =
    let opened = record s { current_path = some x.path; current_lines = [] } in
    let (kept, e) = lost_lines x.body x.path opened n r refl in
    ap finish (
      parse_lines-append (x.opener ∷ x.body) (x.closer ∷ []) s
      ∙ ap (parse_line x.closer) (ap (parse_lines x.body) (open_clear x s w c) ∙ e)
      ∙ close_line x (record opened { review_lines = kept }) w refl)
    ∙ cc

-- A FILE section that is well formed is lost without a warning if an unclosed REVIEW stands before
-- it and its text has no line that closes a review: the parser returns no block.
pub parse_file_blocks_after_unclosed_review :
    (l header : Text) (x : Section)
    → OpensReview header l
    → IsSection x
    → All IsLost x.body
    → All (Lacks b'\n') (l ∷ lines_of x)
    → parse_file_blocks (join (codes "\n") (l ∷ lines_of x))
      ≡ record { blocks = []; reviews = []; warnings = [] }
unfolding parse_file_blocks
parse_file_blocks_after_unclosed_review l header x o w n h =
    ap (λ ls. finish (parse_lines ls initial_state)) (split_on-join b'\n' l (lines_of x) h.0 h.1)
    ∙ ap finish (unfold parse_lines in ap (parse_lines (lines_of x)) (review_step l header o))
    ∙ lost_section x (record initial_state { in_review = true; review_header = header }) w n refl
        refl refl refl refl
