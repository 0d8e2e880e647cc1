-- ===== src/Embedding/Service.antt =====
-- app/embedding/service.py: the pages of a wiki become rows of the vector store. LanceDB and LiteLLM
-- are given.
pub mod Ends
pub mod Upsert
use llm_wiki_engine.Prelude.{
  ℕ, zero, suc, Bool, true, false, not, ◌&&◌, ◌||◌, Option, none, some, List, [], ◌∷◌, ◌++◌, map,
  length, drop, filter, contains, is_nil, leb, ◌==◌, nat_eq, if◌then◌else◌,
}
use llm_wiki_engine.Text.{Text, codes, strip, starts_with, split_on, is_empty}
use llm_wiki_engine.Ingest.Writer.{text_eq, dedupe, find_dashes}
use llm_wiki_engine.Embedding.Chunker.{Chunk, chunk_markdown}
use llm_wiki_engine.Llm.Client.{str}

-- The last part of a path, after parts that are empty or a dot are dropped.
abbrev pub last_part : List Text → Text
last_part [] = []
last_part (p ∷ []) = p
last_part (p ∷ q ∷ ps) = last_part (q ∷ ps)

unfoldable pub path_name : Text → Text
unfolding split_on
path_name path = last_part (filter (λ p. not (is_empty p || p == codes ".")) (split_on b'/' path))

-- `stem` and `suffix` of a name, of which a dot at the start or the end splits nothing off: the last
-- dot that is left has something on both sides.
unfoldable pub split_suffix : Text → Option (Text × Text)
split_suffix [] = none
split_suffix (c ∷ []) = none
split_suffix (c ∷ d ∷ s) = elim (split_suffix (d ∷ s)) [
  | none ↦
      if d == b'.' && not (is_nil s) && not (contains s b'.') then some (c ∷ [], d ∷ s) else none
  | some (stem, suffix) ↦ some (c ∷ stem, suffix)
]

unfoldable pub stem_of : Text → Text
unfolding split_suffix
stem_of name = elim (split_suffix name) [ none ↦ name | some (stem, suffix) ↦ stem ]

unfoldable pub suffix_of : Text → Text
unfolding split_suffix
suffix_of name = elim (split_suffix name) [ none ↦ [] | some (stem, suffix) ↦ suffix ]

abbrev is_id_char : ℕ → Bool
is_id_char c = leb b'a' c && leb c b'z' || leb b'0' c && leb c b'9' || c == b'_' || c == b'-'

-- re.sub(r"[^a-z0-9_-]", "-", …)
abbrev pub id_char : ℕ → ℕ
id_char c = if is_id_char c then c else b'-'

-- The file of a page: none where it does not exist, and unreadable where `open` or `read` raises.
pub data PageRead : Type 0 where
  missing : PageRead
  unreadable : PageRead
  content : Text → PageRead

-- The part after the frontmatter.
unfoldable pub without_frontmatter : Text → Text
unfolding starts_with find_dashes strip
without_frontmatter text =
    if starts_with (codes "---") text
    then (elim (find_dashes (drop 3 text)) [ none ↦ text | some (fm, body) ↦ strip body ])
    else text

pub record ChunkMeta : Type 0 where
  pub chunk_id : Text
  pub page_id : Text
  pub chunk_index : ℕ
  pub chunk_text : Text
  pub heading_path : Text

pub record Row (Vector : Type 0) : Type 0 where
  pub meta : ChunkMeta
  pub vector : Vector

unfoldable pub meta_of_chunk : Text → Chunk → ChunkMeta
unfolding str
meta_of_chunk page_id chunk = record {
  chunk_id = page_id ++ (codes "#" ++ str chunk.chunk_index);
  page_id = page_id;
  chunk_index = chunk.chunk_index;
  chunk_text = chunk.text;
  heading_path = chunk.heading_path;
}

-- `str.lower`, and the files below the project.
module _ (lower : Text → Text) (read_page : Text → PageRead) where
  unfoldable pub page_id_from_path : Text → Text
  unfolding path_name stem_of
  page_id_from_path wiki_path = map id_char (lower (stem_of (path_name wiki_path)))

  -- The chunks of a text, unless it is empty.
  unfoldable pub chunks_of_text : Text → Text → Option (List ChunkMeta)
  unfolding page_id_from_path chunk_markdown meta_of_chunk
  chunks_of_text wiki_path text =
      if is_empty text then some [] else elim (chunk_markdown text 512 64) [
        | none ↦ none
        | some chunks ↦ some (map (meta_of_chunk (page_id_from_path wiki_path)) chunks)
      ]

  -- None if the reading raises.
  unfoldable pub chunks_of_page : Text → PageRead → Option (List ChunkMeta)
  unfolding suffix_of path_name chunks_of_text without_frontmatter
  chunks_of_page wiki_path missing = some []
  chunks_of_page wiki_path unreadable =
      if suffix_of (path_name wiki_path) == codes ".md" then none else some []
  chunks_of_page wiki_path (content text) =
      if suffix_of (path_name wiki_path) == codes ".md"
      then chunks_of_text wiki_path (without_frontmatter text)
      else some []

  unfoldable pub all_chunks : List Text → Option (List ChunkMeta)
  unfolding chunks_of_page
  all_chunks [] = some []
  all_chunks (wp ∷ wps) =
      let rest = all_chunks wps in
      elim (chunks_of_page wp (read_page wp)) [
        | none ↦ none
        | some chunks ↦ elim rest [ none ↦ none | some more ↦ some (chunks ++ more) ]
      ]

-- The tables of LanceDB: their rows; and the deletion of the rows of a page, the addition of rows,
-- and a new table, each none where it raises, as an addition does for vectors of another dimension
-- than the table's.
pub record Lance (Vector Table : Type 0) : Type 0 where
  pub rows : Table → List (Row Vector)
  pub delete_page : Text → Table → Option Table
  pub add : List (Row Vector) → Table → Option Table
  pub create_table : List (Row Vector) → Option Table

-- The number that is returned, or an exception, with the table that is left.
pub data Embedded (Table : Type 0) : Type 0 where
  returned : ℕ → Option Table → Embedded Table
  raised : Option Table → Embedded Table

module _ {Vector Table : Type 0} (lance : Lance Vector Table) where
  -- `except Exception: pass`
  unfoldable pub delete_pages : List Text → Table → Table
  delete_pages [] table = table
  delete_pages (pid ∷ pids) table =
      delete_pages pids (elim (lance.delete_page pid table) [ none ↦ table | some t ↦ t ])

  -- A table that was written, or what is left where the write raised.
  abbrev pub written_or : ℕ → Option Table → Option Table → Embedded Table
  written_or n old none = raised old
  written_or n old (some table) = returned n (some table)

  unfoldable pub upsert : List (Row Vector) → Option Table → Embedded Table
  unfolding delete_pages dedupe
  upsert records none = written_or (length records) none (lance.create_table records)
  upsert records (some table) =
      let left = delete_pages (dedupe (map (λ r. r.meta.page_id) records)) table in
      written_or (length records) (some left) (lance.add records left)

  -- `zip`
  unfoldable pub zip_records : List ChunkMeta → List Vector → List (Row Vector)
  zip_records [] vs = []
  zip_records (m ∷ ms) [] = []
  zip_records (m ∷ ms) (v ∷ vs) = record { meta = m; vector = v } ∷ zip_records ms vs

  -- `len(vectors[0]) if vectors else 0`, and the embeddings: none if the call raises.
  module _ (dimension : Vector → ℕ) (get_embeddings : List Text → Option (List Vector)) where
    abbrev pub actual_dim : List Vector → ℕ
    actual_dim [] = 0
    actual_dim (v ∷ vs) = dimension v

    unfoldable pub store_chunks :
        List ChunkMeta → Option (List Vector) → Option Table → Embedded Table
    unfolding upsert zip_records
    store_chunks chunks none table = returned 0 table
    store_chunks chunks (some vectors) table =
        let records = zip_records chunks vectors in
        if not (length vectors == length chunks) || leb (actual_dim vectors) 0
        then returned 0 table
        else upsert records table

    unfoldable pub embed_chunks : Option (List ChunkMeta) → Option Table → Embedded Table
    unfolding store_chunks
    embed_chunks none table = raised table
    embed_chunks (some []) table = returned 0 table
    embed_chunks (some (c ∷ cs)) table =
        store_chunks (c ∷ cs) (get_embeddings (map (λ m. m.chunk_text) (c ∷ cs))) table

    -- The first argument is `cfg.enabled`.
    unfoldable pub embed_pages :
        (Text → Text) → (Text → PageRead) → Bool → List Text → Option Table → Embedded Table
    unfolding all_chunks embed_chunks
    embed_pages lower read_page enabled wiki_paths table =
        if enabled
        then embed_chunks (all_chunks lower read_page wiki_paths) table
        else returned 0 table
