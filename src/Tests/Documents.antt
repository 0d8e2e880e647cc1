-- ===== src/Tests/Documents.antt =====
-- app/ingest/{parser,writer,pipeline}.py and app/embedding/chunker.py on short texts.
use llm_wiki_engine.Prelude.{
  ℕ, ◌+◌, ◌≤◌, ◌<◌, min, max, ◌≡◌, refl, Bool, false, ◌||◌, none, some, List, [], ◌∷◌, ◌++◌,
  contains, All, arith, length,
}
use llm_wiki_engine.Text.{Text, codes, join, strip, is_space}
use llm_wiki_engine.Ingest.Parser.{
  is_safe_ingest_path, split_segments, file_opener, file_closer, review_opener, review_closer,
}
use llm_wiki_engine.Ingest.Parser.Paths.{walk, is_safe_ingest_path-walk}
use llm_wiki_engine.Ingest.Parser.Loop.{parse_file_blocks}
use llm_wiki_engine.Ingest.Parser.Loop.Safe.{IsGood, parse_file_blocks-AllGood}
use llm_wiki_engine.Ingest.Parser.Loop.Sections.{
  Section, IsSection, lines_of, lines_of_all, blocks_of, parse_file_blocks-sections,
}
use llm_wiki_engine.Ingest.Parser.Loop.Unclosed.{parse_file_blocks_after_unclosed_review}
use llm_wiki_engine.Ingest.Writer.{
  text_eq, Frontmatter, items, str, Outside, no_dictionary, torn, merge_frontmatter,
}
use llm_wiki_engine.Ingest.Writer.Merge.{lists, either_lists, merge_frontmatter-lists}
use llm_wiki_engine.Ingest.Pipeline.{State, Run, entry, saved, auto_ingest}
use llm_wiki_engine.Ingest.Pipeline.Rollback.{Undone, auto_ingest-Undone}
use llm_wiki_engine.Ingest.Pipeline.Steps.{IsGraceful}
use llm_wiki_engine.Ingest.Pipeline.Resume.{auto_ingest-IsGraceful}
use llm_wiki_engine.Embedding.Chunker.{find_split_point, window_end, chunk_markdown, min_chunk_size}
use llm_wiki_engine.Embedding.Chunker.SplitPoint.{find_split_point_ignores_text, window_end_bounds}
use llm_wiki_engine.Embedding.Chunker.Windows.{Chunked, chunk_markdown-Chunked}

is_safe_ingest_path-walk_example :
    (below : List Text) × (walk (split_segments (codes "wiki/a/b.md")) []
      ≡ some (below ++ codes "wiki" ∷ []))
unfolding is_safe_ingest_path
is_safe_ingest_path-walk_example = is_safe_ingest_path-walk (codes "wiki/a/b.md") refl

abbrev generated : Text
generated = codes "---FILE: wiki/a.md---\nA\n---END FILE---\n---FILE: ../b.md---\nB\n---END FILE---"

parse_file_blocks-AllGood_example : All IsGood (parse_file_blocks generated).blocks
parse_file_blocks-AllGood_example = parse_file_blocks-AllGood generated

abbrev section_a : Section
section_a = record {
  opener = codes "--- file: wiki/a.md ---";
  path = codes "wiki/a.md";
  body = codes "# A" ∷ codes "" ∷ codes "text" ∷ [];
  closer = codes "---END FILE---";
}

section_a-IsSection : IsSection section_a
unfolding strip is_space is_safe_ingest_path file_opener file_closer
section_a-IsSection = record {
  opens = refl;
  safe = refl;
  plain = ((refl, refl), ((refl, refl), ((refl, refl), tt)));
  ends_it = refl;
  closes = refl;
}

parse_file_blocks-sections_example :
    parse_file_blocks (join (codes "\n") (lines_of_all (section_a ∷ section_a ∷ [])))
    ≡ record { blocks = blocks_of (section_a ∷ section_a ∷ []); reviews = []; warnings = [] }
parse_file_blocks-sections_example =
    parse_file_blocks-sections section_a (section_a ∷ [])
      (section_a-IsSection, (section_a-IsSection, tt))
      (refl, (refl, (refl, (refl, (refl, (refl, (refl, (refl, (refl, (refl, tt))))))))))

parse_file_blocks_after_unclosed_review_example :
    parse_file_blocks (join (codes "\n") (codes "---REVIEW: todo---" ∷ lines_of section_a))
    ≡ record { blocks = []; reviews = []; warnings = [] }
unfolding strip is_space file_opener file_closer review_opener review_closer
parse_file_blocks_after_unclosed_review_example =
    parse_file_blocks_after_unclosed_review (codes "---REVIEW: todo---") (codes "todo") section_a
      ((refl, refl), refl) section_a-IsSection
      (((refl, refl), refl), (((refl, refl), refl), (((refl, refl), refl), tt)))
      (refl, (refl, (refl, (refl, (refl, (refl, tt))))))

abbrev page_meta : Text → Frontmatter
page_meta tag = (codes "title", str tag) ∷ (codes "tags", items (tag ∷ [])) ∷ []

merge_frontmatter-lists_example :
    let m = merge_frontmatter (page_meta (codes "x")) (page_meta (codes "y")) (codes "s.pdf") in
    (lists (codes "tags") m (codes "x")
      ≡ either_lists (codes "tags") (page_meta (codes "x")) (page_meta (codes "y")) (codes "x"))
    × (lists (codes "related") m (codes "x")
        ≡ either_lists
            (codes "related")
            (page_meta (codes "x"))
            (page_meta (codes "y"))
            (codes "x"))
    × (lists (codes "sources") m (codes "x") ≡ (
        either_lists (codes "sources") (page_meta (codes "x")) (page_meta (codes "y")) (codes "x")
        || contains (codes "s.pdf" ∷ []) (codes "x")))
merge_frontmatter-lists_example =
    merge_frontmatter-lists (page_meta (codes "x")) (page_meta (codes "y")) (codes "s.pdf")
      (codes "x") refl

-- A disk that tears each write, and PyYAML on pages without a frontmatter.
abbrev torn_disk : Outside
torn_disk = record {
  safe_load = λ t. no_dictionary;
  dump = λ fm. codes "{}";
  llm_merge = λ a b. none;
  file_of = λ p. p;
  disk = λ f t. torn [];
}

abbrev small_run : Outside → (ℕ → Bool) → Run
small_run outside paused_at = record {
  source = codes "s.pdf";
  content = codes "text";
  content_hash = codes "h";
  analyze = some (codes "analysis");
  generate = λ a. some generated;
  paused_at = paused_at;
  embedding_fails = false;
  checkpoint_saving = λ step. saved;
  row_fails = λ step. false;
  cache_saving = saved;
  remove_fails = false;
  outside = outside;
}

abbrev resumed_state : State
resumed_state = record {
  files = λ f. some (codes "old");
  checkpoint = some (record { step = 1; analysis = codes "analysis"; generation = [] });
  cached = entry none;
  job_step = 1;
  embedded = [];
  checks = 0;
}

auto_ingest-Undone_example :
    Undone
      (small_run torn_disk (λ n. false))
      resumed_state
      (auto_ingest (small_run torn_disk (λ n. false)) 1 resumed_state)
auto_ingest-Undone_example = auto_ingest-Undone (small_run torn_disk (λ n. false)) 1 resumed_state

auto_ingest-IsGraceful_example :
    let r = auto_ingest (small_run torn_disk (λ n. false)) resumed_state.job_step resumed_state in
    IsGraceful (small_run torn_disk (λ n. false)) r.0 r.1
auto_ingest-IsGraceful_example =
    auto_ingest-IsGraceful (small_run torn_disk (λ n. false)) resumed_state
      (((λ h. refl), λ h. ground (arith, h)), omega arith)

-- The row counts step 1, and the checkpoint is gone.
abbrev torn_state : State
torn_state = record resumed_state { checkpoint = none }

find_split_point_ignores_text_example :
    find_split_point (codes "# A\n\nOne. Two.") 512 ≡ max 512 min_chunk_size
find_split_point_ignores_text_example = find_split_point_ignores_text (codes "# A\n\nOne. Two.") 512

window_end_bounds_example :
    (0 < window_end (codes "abcdef") 4 0)
    × (window_end (codes "abcdef") 4 0 ≤ 0 + max 4 min_chunk_size)
    × (min (0 + min_chunk_size) (length (codes "abcdef")) ≤ window_end (codes "abcdef") 4 0)
window_end_bounds_example = window_end_bounds (codes "abcdef") 4 0 (omega arith)

chunk_markdown-Chunked_example :
    Chunked (codes "# A\n\nOne. Two.") 4 0 0 (chunk_markdown (codes "# A\n\nOne. Two.") 4 2)
chunk_markdown-Chunked_example = chunk_markdown-Chunked (codes "# A\n\nOne. Two.") 4 2
