-- ===== src/Ingest/Files/Selection/Pages.antt =====
-- The pages of a listing put together.
use llm_wiki_engine.Prelude.{
  ℕ, zero, suc, ◌+◌, ◌-◌, ◌*◌, ◌≤◌, max, ◌≡◌, refl, ap, ◌∙◌, List, [], ◌∷◌, ◌++◌, take, drop,
  length, arith,
}
use native.Mathlib.Numerals.{unary_clauses}
use llm_wiki_engine.Ingest.Files.{FileItem, ℤ, pos}
use llm_wiki_engine.Ingest.Files.Selection.{safe_size, paginate_items}

module _ {ℓ} {A : Type ℓ} where
  take-add : (m n : ℕ) (xs : List A) → take m xs ++ take n (drop m xs) ≡ take (m + n) xs
  take-add zero n xs = ap (λ k. take k xs) e
    where
      e : n ≡ 0 + n
      e = omega arith
  take-add (suc m) zero [] = simp unary_clauses refl
  take-add (suc m) (suc n) [] = simp unary_clauses refl
  take-add (suc m) n (x ∷ xs) = ap (◌∷◌ x) (take-add m n xs) ∙ ap (λ k. take k (x ∷ xs)) e
    where
      e : suc (m + n) ≡ suc m + n
      e = omega arith

  take_all : (n : ℕ) (xs : List A) → length xs ≤ n → take n xs ≡ xs
  take_all zero [] h = refl
  take_all zero (x ∷ xs) h = absurd (omega arith)
  take_all (suc n) [] h = refl
  take_all (suc n) (x ∷ xs) h = ap (◌∷◌ x) (take_all n xs (omega arith))

-- The items of the first pages, one page after the other.
abbrev pub first_pages : List FileItem → ℤ → ℕ → List FileItem
first_pages items page_size zero = []
first_pages items page_size (suc n) =
    first_pages items page_size n ++ (paginate_items items (pos (suc n)) page_size).items

first_pages-take :
    (items : List FileItem) (page_size : ℤ) (n : ℕ)
    → first_pages items page_size n ≡ take (n * safe_size page_size) items
unfolding paginate_items
first_pages-take items page_size zero = ap (λ k. take k items) e
  where
    e : 0 ≡ 0 * safe_size page_size
    e = omega arith
first_pages-take items page_size (suc n) =
    ap (λ k. first_pages items page_size n ++ take size (drop k items)) start
    ∙ ap (λ xs. xs ++ take size (drop (n * size) items)) (first_pages-take items page_size n)
    ∙ take-add (n * size) size items
    ∙ ap (λ k. take k items) next
  where
    size : ℕ
    size = safe_size page_size

    below : max 1 (suc n) - 1 ≡ n
    below = omega arith

    start : (max 1 (suc n) - 1) * size ≡ n * size
    start = ap (λ k. k * size) below

    next : n * size + size ≡ suc n * size
    next = omega arith

-- Going through the pages shows every item once and in order: when enough pages are read for the
-- items, for any page size of a request, the pages put together are the list itself.
pub paginate_items-first_pages :
    (items : List FileItem) (page_size : ℤ) (n : ℕ)
    → length items ≤ n * safe_size page_size
    → first_pages items page_size n ≡ items
paginate_items-first_pages items page_size n h =
    first_pages-take items page_size n ∙ take_all (n * safe_size page_size) items h
