-- ===== src/Embedding/Chunker/SplitPoint.antt =====
-- app/embedding/chunker.py: where `_find_split_point` splits, and the bounds of a window.
use llm_wiki_engine.Prelude.{
  ℕ, ◌+◌, ◌≤◌, ◌<◌, min, max, ◌≡◌, refl, List, [], ◌∷◌, arith, nat_eq, length,
}
use llm_wiki_engine.Text.{Text, slice}
use llm_wiki_engine.Embedding.Chunker.{
  SplitPattern, nearer, try_patterns, find_split_point, split_patterns, min_chunk_size, window_end,
}

nearer_target : (target : ℕ) (positions : List ℕ) → nearer target target positions ≡ target
unfolding nearer
nearer_target target [] = refl
nearer_target target (pos ∷ positions) = ground (arith, nearer_target target positions)

try_patterns_target :
    (text : Text) (target : ℕ) (ps : List SplitPattern)
    → try_patterns text target target ps ≡ target
unfolding try_patterns
try_patterns_target text target [] = refl
try_patterns_target text target (p ∷ ps) =
    rw (nearer_target target) (ground (arith, try_patterns_target text target ps))

-- Whatever the text, `_find_split_point` returns the target, or `MIN_CHUNK_SIZE` if that is
-- larger: no heading, paragraph, line, sentence or word boundary is ever chosen.
pub find_split_point_ignores_text :
    (text : Text) (target : ℕ) → find_split_point text target ≡ max target min_chunk_size
unfolding find_split_point
find_split_point_ignores_text text target = rw (try_patterns_target text target split_patterns)

-- A window is not empty, it is at most as long as a chunk may be, and it spans at least
-- `MIN_CHUNK_SIZE` characters or what is left of the text.
pub window_end_bounds :
    (text : Text) (size pos : ℕ)
    → pos < length text
    → (pos < window_end text size pos)
      × (window_end text size pos ≤ pos + max size min_chunk_size)
      × (min (pos + min_chunk_size) (length text) ≤ window_end text size pos)
unfolding window_end
window_end_bounds text size pos h =
    ground
      (arith, find_split_point_ignores_text (slice pos (min (pos + size) (length text)) text) size)
