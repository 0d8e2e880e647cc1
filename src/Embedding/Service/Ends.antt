-- ===== src/Embedding/Service/Ends.antt =====
-- How an embedding of pages ends, and the rows of each page after it.
use llm_wiki_engine.Prelude.{
  ℕ, ◌≡◌, Bool, true, false, not, ◌&&◌, Option, none, some, List, [], map, length, any, leb, ◌==◌,
  nat_eq,
}
use llm_wiki_engine.Text.{Text, codes}
use llm_wiki_engine.Ingest.Writer.{text_eq}
use llm_wiki_engine.Embedding.Service.{
  PageRead, missing, unreadable, content, path_name, suffix_of, ChunkMeta, all_chunks, Lance,
  Embedded, returned, raised, actual_dim,
}
use llm_wiki_engine.Embedding.Service.Upsert.{IsTable, Written}

module _ {Vector Table : Type 0} (lance : Lance Vector Table) (laws : IsTable lance)
    (dimension : Vector → ℕ) (get_embeddings : List Text → Option (List Vector))
    (lower : Text → Text) (read_page : Text → PageRead) (enabled : Bool) (paths : List Text)
    (before : Option Table) where
  abbrev pub is_broken : Text → Bool
  is_broken wp =
      suffix_of (path_name wp) == codes ".md"
      && (elim (read_page wp) [ missing ↦ false | unreadable ↦ true | content t ↦ false ])

  abbrev pub texts_of : List ChunkMeta → List Text
  texts_of chunks = map (λ m. m.chunk_text) chunks

  -- One vector for each chunk, and the first one not empty.
  abbrev pub fits : List ChunkMeta → List Vector → Bool
  fits chunks vs =
      length vs == length chunks && not (leb (actual_dim lance dimension get_embeddings vs) 0)

  -- How an embedding ends: a page could not be read; nothing changed, since embedding is off, there
  -- is no text, or the vectors are missing or do not fit; or the chunks of all pages
  -- went to the table, which stored or refused them.
  pub data Ends : Embedded Table → Type 0 where
    broken : enabled ≡ true → any is_broken paths ≡ true → Ends (raised before)
    disabled : enabled ≡ false → Ends (returned 0 before)
    empty : all_chunks lower read_page paths ≡ some [] → Ends (returned 0 before)
    failed :
        (chunks : List ChunkMeta)
        → all_chunks lower read_page paths ≡ some chunks
        → get_embeddings (texts_of chunks) ≡ none
        → Ends (returned 0 before)
    misfit :
        (chunks : List ChunkMeta) (vs : List Vector)
        → all_chunks lower read_page paths ≡ some chunks
        → get_embeddings (texts_of chunks) ≡ some vs
        → fits chunks vs ≡ false
        → Ends (returned 0 before)
    attempted :
        (chunks : List ChunkMeta) (vs : List Vector) (r : Embedded Table)
        → enabled ≡ true
        → all_chunks lower read_page paths ≡ some chunks
        → get_embeddings (texts_of chunks) ≡ some vs
        → Written lance chunks vs before r
        → Ends r
