-- ===== src/Embedding/Service/Upsert.antt =====
-- The rows of each page after records went into a table.
use llm_wiki_engine.Prelude.{
  ℕ, ◌≡◌, refl, sym, ap, ◌∙◌, Bool, false, not, ◌||◌, Option, none, some, List, [], ◌∷◌, ◌++◌, map,
  length, filter, contains, ◌==◌, nat_eq, if◌then◌else◌, Bool-cases, Option-cases, ◌⊎◌, inl, inr,
  arith,
}
use llm_wiki_engine.Text.{Text, text_beq_iff}
use llm_wiki_engine.Ingest.Writer.{text_eq, dedupe}
use llm_wiki_engine.Ingest.Writer.Merge.{contains-dedupe}
use llm_wiki_engine.Embedding.Service.{
  ChunkMeta, Row, Lance, Embedded, returned, raised, delete_pages, upsert, zip_records,
}

filter-append :
    {A : Type 0} (p : A → Bool) (xs ys : List A) → filter p (xs ++ ys) ≡ filter p xs ++ filter p ys
filter-append p [] ys = refl
filter-append p (x ∷ xs) ys = ground (arith, filter-append p xs ys)

append_nil : {A : Type 0} (xs : List A) → xs ++ [] ≡ xs
append_nil [] = refl
append_nil (x ∷ xs) = ap (λ l. x ∷ l) (append_nil xs)

-- The rows of a page.
abbrev pub rows_of : {Vector : Type 0} → Text → List (Row Vector) → List (Row Vector)
rows_of id rs = filter (λ r. r.meta.page_id == id) rs

-- The rows of every other page.
abbrev pub rows_but : {Vector : Type 0} → Text → List (Row Vector) → List (Row Vector)
rows_but id rs = filter (λ r. not (r.meta.page_id == id)) rs

abbrev pub page_ids : {Vector : Type 0} → List (Row Vector) → List Text
page_ids rs = map (λ r. r.meta.page_id) rs

rows_of-rows_but :
    {Vector : Type 0} (id q : Text) (rs : List (Row Vector))
    → rows_of id (rows_but q rs) ≡ (if q == id then [] else rows_of id rs)
rows_of-rows_but id q [] = ground arith
rows_of-rows_but id q (r ∷ rs) = ground (
  arith,
  text_beq_iff r.meta.page_id q,
  text_beq_iff r.meta.page_id id,
  text_beq_iff q id,
  rows_of-rows_but id q rs,
)

-- What the operations of a table do if they do not raise: the deletion of a page's rows leaves the
-- others in their order, an addition puts its rows behind those of the table, and a new table holds
-- its rows.
pub record IsTable {Vector Table : Type 0} (lance : Lance Vector Table) : Type 0 where
  pub deletes :
      (id : Text) (table left : Table)
      → lance.delete_page id table ≡ some left
      → lance.rows left ≡ rows_but id (lance.rows table)
  pub adds :
      (rs : List (Row Vector)) (table after : Table)
      → lance.add rs table ≡ some after
      → lance.rows after ≡ lance.rows table ++ rs
  pub creates :
      (rs : List (Row Vector)) (after : Table)
      → lance.create_table rs ≡ some after
      → lance.rows after ≡ rs

if_nil :
    {A : Type 0} (a b : Bool) (x : List A)
    → (if a then [] else (if b then [] else x)) ≡ (if b || a then [] else x)
if_nil a b x = ground arith

-- No record of a page that is not among the pages of the records.
no_rows :
    {Vector : Type 0} (id : Text) (records : List (Row Vector))
    → contains (page_ids records) id ≡ false
    → rows_of id records ≡ []
no_rows id [] e = refl
no_rows id (r ∷ rs) e = ground (arith, e, no_rows id rs)

replace_rows :
    {Vector : Type 0} (id : Text) (records : List (Row Vector))
    → (if contains (page_ids records) id then rows_of id records else []) ≡ rows_of id records
replace_rows id records = elim (Bool-cases (contains (page_ids records) id)) [
  | inl e ↦ rw e refl
  | inr e ↦ rw e (sym (no_rows id records e))
]

replace_rows_after :
    {Vector : Type 0} (id : Text) (records : List (Row Vector)) (old : List (Row Vector))
    → (if contains (page_ids records) id then [] else old) ++ rows_of id records
      ≡ (if contains (page_ids records) id then rows_of id records else old)
replace_rows_after id records old = elim (Bool-cases (contains (page_ids records) id)) [
  | inl e ↦ rw e refl
  | inr e ↦ rw (e, no_rows id records e) (append_nil old)
]

module _ {Vector Table : Type 0} (lance : Lance Vector Table) where
  -- The deletion of the rows of a page raises at some table.
  abbrev pub Undeletable : Text → Type 0
  Undeletable id = (table : Table) × (lance.delete_page id table ≡ none)

  abbrev pub rows_at : Option Table → List (Row Vector)
  rows_at none = []
  rows_at (some table) = lance.rows table

  -- The rows of a page that are left of the old ones: none if the page is to be replaced, but all of
  -- them if their deletion raises.
  abbrev pub Left : Text → Bool → List (Row Vector) → List (Row Vector) → Type 0
  Left id replaced old now = (now ≡ (if replaced then [] else old)) ⊎ ((now ≡ old) × Undeletable id)

  -- Behind them come the records.
  abbrev pub Replaced : Text → List (Row Vector) → List (Row Vector) → List (Row Vector) → Type 0
  Replaced id records old now =
      (now ≡ (if contains (page_ids records) id then rows_of id records else old))
      ⊎ ((now ≡ old ++ rows_of id records) × Undeletable id)

  -- The chunks went into the table with their vectors, and took the place of the rows of their
  -- pages.
  pub record Upserted (chunks : List ChunkMeta) (vectors : List Vector) (before : Option Table)
      (n : ℕ) (after : Option Table) : Type 0 where
    pub records : List (Row Vector)
    pub counted : length records ≡ n
    pub complete : map (λ r. r.meta) records ≡ chunks
    pub embedded : map (λ r. r.vector) records ≡ vectors
    pub replaced :
        (id : Text) → Replaced id records (rows_of id (rows_at before)) (rows_of id (rows_at after))

  -- The table refused the records, after the rows of their pages were deleted.
  pub record Refused (chunks : List ChunkMeta) (vectors : List Vector) (before after : Option Table)
      : Type 0 where
    pub records : List (Row Vector)
    pub complete : map (λ r. r.meta) records ≡ chunks
    pub embedded : map (λ r. r.vector) records ≡ vectors
    pub refusal : (lance.create_table records ≡ none) ⊎ ((t : Table) × (lance.add records t ≡ none))
    pub removed :
        (id : Text)
        → Left id
            (contains (page_ids records) id)
            (rows_of id (rows_at before))
            (rows_of id (rows_at after))

  -- What an upsert of the records does.
  abbrev pub Written : List ChunkMeta → List Vector → Option Table → Embedded Table → Type 0
  Written chunks vectors before (returned n after) = Upserted chunks vectors before n after
  Written chunks vectors before (raised after) = Refused chunks vectors before after

  Left-skip :
      (id pid : Text) (pids : List Text) (table : Table) (old now : List (Row Vector))
      → lance.delete_page pid table ≡ none
      → Left id (contains pids id) old now
      → Left id (contains (pid ∷ pids) id) old now
  Left-skip id pid pids table old now e (inr k) = inr k
  Left-skip id pid pids table old now e (inl k) = elim (Bool-cases (pid == id)) [
    | inl same ↦ elim (Bool-cases (contains pids id)) [
      | inl c ↦ inl (rw same (k ∙ rw c refl))
      | inr c ↦ inr (
        k ∙ rw c refl,
        (table, ap (λ p. lance.delete_page p table) (sym ((text_beq_iff pid id).0 same)) ∙ e),
      )
    ]
    | inr other ↦ inl (rw other k)
  ]

  Left-deleted :
      (id pid : Text) (pids : List Text) (old now : List (Row Vector))
      → Left id (contains pids id) (if pid == id then [] else old) now
      → Left id (contains (pid ∷ pids) id) old now
  Left-deleted id pid pids old now (inl k) = inl (k ∙ if_nil (contains pids id) (pid == id) old)
  Left-deleted id pid pids old now (inr (k, w)) = elim (Bool-cases (pid == id)) [
    | inl same ↦ inl (rw same (k ∙ rw same refl))
    | inr other ↦ inr (k ∙ rw other refl, w)
  ]

  module _ (laws : IsTable lance) where
    delete_pages-Left :
        (id : Text) (pids : List Text) (table : Table)
        → Left id
            (contains pids id)
            (rows_of id (lance.rows table))
            (rows_of id (lance.rows (delete_pages lance pids table)))
    unfolding delete_pages
    delete_pages-Left id [] table = inl refl
    delete_pages-Left id (pid ∷ pids) table = elim (Option-cases (lance.delete_page pid table)) [
      | inl e ↦ rw e (Left-skip id pid pids table _ _ e (delete_pages-Left id pids table))
      | inr (left, e) ↦ rw e (
          Left-deleted id pid pids _ _ (
            rw (← rows_of-rows_but id pid (lance.rows table))
              (rw (← laws.deletes pid table left e) (delete_pages-Left id pids left))))
    ]

    Left-Replaced :
        (id : Text) (records old left now : List (Row Vector))
        → now ≡ left ++ rows_of id records
        → Left id (contains (page_ids records) id) old left
        → Replaced id records old now
    Left-Replaced id records old left now e (inl k) =
        inl (e ∙ ap (λ l. l ++ rows_of id records) k ∙ replace_rows_after id records old)
    Left-Replaced id records old left now e (inr (k, w)) =
        inr (e ∙ ap (λ l. l ++ rows_of id records) k, w)

    -- An upsert replaces the rows of the pages of its records, or is refused.
    pub upsert-Written :
        (chunks : List ChunkMeta) (vs : List Vector) (records : List (Row Vector))
        (table : Option Table)
        → map (λ r. r.meta) records ≡ chunks
        → map (λ r. r.vector) records ≡ vs
        → Written chunks vs table (upsert lance records table)
    unfolding upsert
    upsert-Written chunks vs records none all paired =
        elim (Option-cases (lance.create_table records)) [
          | inl e ↦ rw e (record {
            records = records;
            complete = all;
            embedded = paired;
            refusal = inl e;
            removed = λ id. inl (ground arith);
          })
          | inr (after, e) ↦ rw e (record {
            records = records;
            counted = refl;
            complete = all;
            embedded = paired;
            replaced = λ id.
                inl
                  (ap (rows_of id) (laws.creates records after e) ∙ sym (replace_rows id records));
          })
        ]
    upsert-Written chunks vs records (some table) all paired =
        elim (Option-cases (lance.add records left)) [
          | inl e ↦ rw e (record {
            records = records;
            complete = all;
            embedded = paired;
            refusal = inr (left, e);
            removed = removed;
          })
          | inr (after, e) ↦ rw e (record {
            records = records;
            counted = refl;
            complete = all;
            embedded = paired;
            replaced = λ id.
                Left-Replaced id records _ (rows_of id (lance.rows left)) _
                  (ap (rows_of id) (laws.adds records left after e)
                    ∙ filter-append (λ r. r.meta.page_id == id) (lance.rows left) records)
                  (removed id);
          })
        ]
      where
        left : Table
        left = delete_pages lance (dedupe (page_ids records)) table

        removed :
            (id : Text)
            → Left id
                (contains (page_ids records) id)
                (rows_of id (lance.rows table))
                (rows_of id (lance.rows left))
        removed id =
            rw (← contains-dedupe (page_ids records) id)
              (delete_pages-Left id (dedupe (page_ids records)) table)

  pub zip-metas :
      (ms : List ChunkMeta) (vs : List Vector)
      → length vs ≡ length ms
      → (map (λ r. r.meta) (zip_records lance ms vs) ≡ ms)
  unfolding zip_records
  zip-metas [] vs e = refl
  zip-metas (m ∷ ms) [] e = absurd (omega (arith, e))
  zip-metas (m ∷ ms) (v ∷ vs) e = ap (λ l. m ∷ l) (zip-metas ms vs (omega (arith, e)))

  pub zip-vectors :
      (ms : List ChunkMeta) (vs : List Vector)
      → length vs ≡ length ms
      → (map (λ r. r.vector) (zip_records lance ms vs) ≡ vs)
  unfolding zip_records
  zip-vectors [] [] e = refl
  zip-vectors [] (v ∷ vs) e = absurd (omega (arith, e))
  zip-vectors (m ∷ ms) [] e = absurd (omega (arith, e))
  zip-vectors (m ∷ ms) (v ∷ vs) e = ap (λ l. v ∷ l) (zip-vectors ms vs (omega (arith, e)))
