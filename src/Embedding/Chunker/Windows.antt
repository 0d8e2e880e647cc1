-- ===== src/Embedding/Chunker/Windows.antt =====
-- app/embedding/chunker.py: the chunks of a page.
use llm_wiki_engine.Prelude.{
  ℕ, zero, suc, ◌+◌, ◌-◌, ◌≤◌, ◌<◌, max, ◌≡◌, refl, sym, ap, ◌∙◌, ◌⊎◌, inl, inr, false, Option,
  some, List, [], ◌∷◌, ◌++◌, arith, Bool-cases, leb, leb→le, length, take, drop, length-drop,
  length-append,
}
use native.Mathlib.Decide.{dec_lt}
use native.Mathlib.Nat.{add-zero, add-suc, suc-add}
use llm_wiki_engine.Text.{Text, is_space, strip, is_empty, slice, lstrip, rstrip, strip_nonempty}
use llm_wiki_engine.Embedding.Chunker.{
  Chunk, min_chunk_size, window_end, emit, chunk_loop, chunk_markdown, extract_heading_path,
}
use llm_wiki_engine.Embedding.Chunker.SplitPoint.{window_end_bounds}

-- The chunk holds the stripped text of a window around position `i`, of bounded length.
pub record Shows (text : Text) (size i : ℕ) (chunk : Chunk) : Type 0 where
  pub start : ℕ
  pub stop : ℕ
  pub is_window : chunk.text ≡ strip (slice start stop text)
  pub from_start : start ≤ i
  pub to_stop : i < stop
  pub bounded : stop ≤ start + max size min_chunk_size

abbrev pub Any : (Chunk → Type 0) → List Chunk → Type 0
Any P [] = ⊥
Any P (c ∷ cs) = P c ⊎ Any P cs

-- The indices count up from `n`.
abbrev pub Numbered : ℕ → List Chunk → Type 0
Numbered n [] = Unit
Numbered n (c ∷ cs) = (c.chunk_index ≡ n) × Numbered (suc n) cs

Any-append_left : (P : Chunk → Type 0) (xs ys : List Chunk) → Any P xs → Any P (xs ++ ys)
Any-append_left P [] ys h = absurd h
Any-append_left P (x ∷ xs) ys (inl h) = inl h
Any-append_left P (x ∷ xs) ys (inr h) = inr (Any-append_left P xs ys h)

Any-append_right : (P : Chunk → Type 0) (xs ys : List Chunk) → Any P ys → Any P (xs ++ ys)
Any-append_right P [] ys h = h
Any-append_right P (x ∷ xs) ys h = inr (Any-append_right P xs ys h)

Numbered-append :
    (n : ℕ) (xs ys : List Chunk)
    → Numbered n xs
    → Numbered (n + length xs) ys
    → Numbered n (xs ++ ys)
Numbered-append n [] ys h k = rw add-zero at k
Numbered-append n (x ∷ xs) ys h k =
    (h.0, Numbered-append (suc n) xs ys h.1 (rw (add-suc, ← suc-add) at k))

drop_before : (n : ℕ) (a r : Text) → n ≤ length a → drop n (a ++ r) ≡ drop n a ++ r
drop_before zero a r h = refl
drop_before (suc n) [] r h = absurd (omega arith)
drop_before (suc n) (x ∷ a) r h = drop_before n a r (omega arith)

take_past :
    (n c : ℕ) (a b : Text)
    → length a < n
    → take n (a ++ c ∷ b) ≡ a ++ c ∷ take (n - suc (length a)) b
take_past zero c a b h = absurd (omega arith)
take_past (suc n) c [] b h = ap (λ k. c ∷ take k b) (omega arith)
take_past (suc n) c (x ∷ a) b h =
    ap (◌∷◌ x) (take_past n c a b (omega arith) ∙ ap (λ k. a ++ c ∷ take k b) (omega arith))

-- A window around a character that is no space is not empty when stripped.
window_nonempty :
    (a b : Text) (c start stop : ℕ)
    → is_space c ≡ false
    → start ≤ length a
    → length a < stop
    → is_empty (strip (slice start stop (a ++ c ∷ b))) ≡ false
window_nonempty a b c start stop h lo hi = rw (drop_before start a (c ∷ b) lo) (
    rw (take_past (stop - start) c (drop start a) b (omega (arith, length-drop start a)))
      (strip_nonempty (drop start a) _ c h))

emit-Shows :
    (text a b : Text) (c size pos stop idx : ℕ)
    → text ≡ a ++ c ∷ b
    → is_space c ≡ false
    → pos ≤ length a
    → length a < stop
    → stop ≤ pos + max size min_chunk_size
    → Any (Shows text size (length a)) (emit text pos stop idx)
unfolding emit
emit-Shows text a b c size pos stop idx e h lo hi bound =
    rw (rw (← e) at (window_nonempty a b c pos stop h lo hi)) (
      inl (record {
        start = pos;
        stop = stop;
        is_window = refl;
        from_start = lo;
        to_stop = hi;
        bounded = bound;
      }))

emit-Numbered : (text : Text) (pos stop idx : ℕ) → Numbered idx (emit text pos stop idx)
unfolding emit
emit-Numbered text pos stop idx = elim (Bool-cases (is_empty (strip (slice pos stop text)))) [
  | inl e ↦ rw e tt
  | inr e ↦ rw e (refl, tt)
]

take_all : (s : Text) → take (length s) s ≡ s
take_all [] = refl
take_all (c ∷ s) = ap (◌∷◌ c) (take_all s)

slice_all : (s : Text) → slice 0 (length s) s ≡ s
slice_all s = ap (λ n. take n s) (omega arith) ∙ take_all s

nonempty_length : (s : Text) → is_empty (strip s) ≡ false → 0 < length s
unfolding strip lstrip rstrip
nonempty_length [] h = cc
nonempty_length (c ∷ s) h = omega arith

-- What the loop returns from a position on.
pub record Chunked (text : Text) (size pos idx : ℕ) (result : Option (List Chunk)) : Type 0 where
  pub chunks : List Chunk
  pub returns : result ≡ some chunks
  pub numbered : Numbered idx chunks
  pub keeps :
      (a b : Text) (c : ℕ)
      → text ≡ a ++ c ∷ b
      → is_space c ≡ false
      → pos ≤ length a
      → Any (Shows text size (length a)) chunks

module _ (text : Text) (size overlap : ℕ) where
  abbrev next_of : ℕ → ℕ
  next_of pos = max (window_end text size pos - overlap) (pos + min_chunk_size)

  -- The last round, whose window reaches the end of the text.
  last_round :
      (fuel pos idx : ℕ)
      → pos < length text
      → length text ≤ next_of pos
      → Chunked text size pos idx (chunk_loop (suc fuel) text size overlap pos idx)
  unfolding chunk_loop
  last_round fuel pos idx more last = record {
    chunks = emit text pos (window_end text size pos) idx;
    returns = ground arith;
    numbered = emit-Numbered text pos (window_end text size pos) idx;
    keeps = λ a b c e h lo.
        emit-Shows text a b c size pos (window_end text size pos) idx e h lo
          (omega
            (arith, ap length e, length-append a (c ∷ b), window_end_bounds text size pos more))
          (window_end_bounds text size pos more).1;
  }

  next_round :
      (fuel pos idx : ℕ)
      → pos < length text
      → next_of pos < length text
      → Chunked text size
          (next_of pos)
          (idx + length (emit text pos (window_end text size pos) idx))
          (chunk_loop fuel text size overlap
            (next_of pos)
            (idx + length (emit text pos (window_end text size pos) idx)))
      → Chunked text size pos idx (chunk_loop (suc fuel) text size overlap pos idx)
  unfolding chunk_loop
  next_round fuel pos idx more goes later = record {
    chunks = emit text pos (window_end text size pos) idx ++ later.chunks;
    returns = ground (arith, later.returns);
    numbered =
        Numbered-append idx _ later.chunks (emit-Numbered text pos (window_end text size pos) idx)
          later.numbered;
    keeps = λ a b c e h lo. elim (dec_lt (length a) (window_end text size pos)) [
      | yes near ↦ Any-append_left _ _ later.chunks (
          emit-Shows text a b c size pos (window_end text size pos) idx e h lo near
            (window_end_bounds text size pos more).1)
      | no far ↦
          Any-append_right _ (emit text pos (window_end text size pos) idx) later.chunks
            (later.keeps a b c e h (omega (arith, window_end_bounds text size pos more)))
    ];
  }

  chunk_loop-Chunked :
      (fuel pos idx : ℕ)
      → pos < length text
      → length text ≤ pos + fuel
      → Chunked text size pos idx (chunk_loop fuel text size overlap pos idx)
  chunk_loop-Chunked zero pos idx more enough = absurd (omega arith)
  chunk_loop-Chunked (suc fuel) pos idx more enough = elim (dec_lt (next_of pos) (length text)) [
    | yes goes ↦
        next_round fuel pos idx more goes
          (chunk_loop-Chunked fuel (next_of pos) _ goes (omega arith))
    | no ends ↦ last_round fuel pos idx more (omega arith)
  ]

-- `chunk_markdown` returns for every page, chunk size and overlap. Its chunks are numbered from 0,
-- and every character that is no space lies in a window of which a chunk holds the stripped text;
-- a window spans at most the larger of the chunk size and `MIN_CHUNK_SIZE`.
pub chunk_markdown-Chunked :
    (text : Text) (size overlap : ℕ) → Chunked text size 0 0 (chunk_markdown text size overlap)
unfolding chunk_markdown
chunk_markdown-Chunked text size overlap = elim (Bool-cases (is_empty (strip text))) [
  | inl blank ↦ record {
    chunks = [];
    returns = rw blank;
    numbered = tt;
    keeps = λ a b c e h lo. cc (blank, rw (← e) at (strip_nonempty a b c h));
  }
  | inr full ↦ elim (Bool-cases (leb (length text) size)) [
    | inl short ↦ record {
      chunks = whole ∷ [];
      returns = rw full (rw short);
      numbered = (refl, tt);
      keeps = λ a b c e h lo. inl (record {
        start = 0;
        stop = length text;
        is_window = ap strip (sym (slice_all text));
        from_start = lo;
        to_stop = omega (arith, ap length e, length-append a (c ∷ b));
        bounded = omega (arith, leb→le _ _ short);
      });
    }
    | inr long ↦
        rw (full, long)
          (chunk_loop-Chunked text size overlap (length text) 0 0 (nonempty_length text full)
            (omega arith))
  ]
]
  where
    whole : Chunk
    whole = record { text = strip text; heading_path = extract_heading_path text; chunk_index = 0 }
