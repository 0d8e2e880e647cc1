-- ===== src/Ingest/Writer.antt =====
-- app/ingest/writer.py: the FILE blocks are written to the project, merged with the pages that
-- exist. A frontmatter is a dictionary whose values are a list, read as the texts of its items, a
-- string, or another value; PyYAML and the model are given.
pub mod Merge
use llm_wiki_engine.Prelude.{
  ℕ, Bool, true, false, not, ◌&&◌, ◌||◌, Option, none, some, List, [], ◌∷◌, ◌++◌, drop, is_nil,
  contains, sort_by, leb, Eq, nat_eq, ◌==◌, if◌then◌else◌,
}
use llm_wiki_engine.Text.{
  Text, codes, strip, rstrip, newlines, starts_with, text_beq, text_beq_iff, is_empty,
}
use llm_wiki_engine.Ingest.Parser.{ParsedFileBlock}

instance abbrev pub text_eq : Eq Text
text_eq = record { equal = text_beq; equal_iff = text_beq_iff }

pub data Value : Type 0 where
  items : List Text → Value
  str : Text → Value
  other : Text → Value

abbrev pub Frontmatter : Type 0
Frontmatter = List (Text × Value)

-- `fm.get(key)`
unfoldable pub get_value : Text → Frontmatter → Option Value
unfolding text_beq
get_value key [] = none
get_value key ((k, v) ∷ fm) = if text_beq k key then some v else get_value key fm

-- `fm[key] = value`
unfoldable pub set_value : Text → Value → Frontmatter → Frontmatter
unfolding text_beq
set_value key value [] = (key, value) ∷ []
set_value key value ((k, v) ∷ fm) =
    let rest = set_value key value fm in if text_beq k key then (k, value) ∷ fm else (k, v) ∷ rest

-- `{**existing, **incoming}`
unfoldable pub update_all : Frontmatter → Frontmatter → Frontmatter
unfolding set_value
update_all fm [] = fm
update_all fm ((k, v) ∷ rest) = update_all (set_value k v fm) rest

unfoldable pub to_str_list : Option Value → List Text
to_str_list none = []
to_str_list (some (items vs)) = vs
to_str_list (some (str v)) = if is_empty v then [] else v ∷ []
to_str_list (some (other v)) = []

-- `a <= b` of two strings.
unfoldable pub text_leb : Text → Text → Bool
text_leb [] t = true
text_leb (c ∷ s) [] = false
text_leb (c ∷ s) (d ∷ t) = if c == d then text_leb s t else leb c d

unfoldable pub dedupe : List Text → List Text
dedupe [] = []
dedupe (x ∷ xs) = let rest = dedupe xs in if contains rest x then rest else x ∷ rest

-- `sorted(set(xs) | set(ys))`
unfoldable pub sorted_union : List Text → List Text → List Text
unfolding sort_by dedupe text_leb
sorted_union xs ys = sort_by text_leb (dedupe (xs ++ ys))

-- One round of the loop over the keys.
unfoldable pub merge_key : Frontmatter → Frontmatter → Text → Frontmatter → Frontmatter
unfolding set_value get_value to_str_list sorted_union
merge_key existing_fm incoming_fm key merged =
    set_value key
      (items (
        sorted_union (to_str_list (get_value key existing_fm))
          (to_str_list (get_value key incoming_fm))))
      merged

-- The source file is added to the merged sources.
unfoldable pub add_source : Text → Frontmatter → Frontmatter
unfolding set_value get_value to_str_list sorted_union
add_source source_filename merged =
    if is_empty source_filename
    then merged
    else set_value (codes "sources")
        (items
          (sorted_union (to_str_list (get_value (codes "sources") merged)) (source_filename ∷ [])))
        merged

unfoldable pub merge_frontmatter : Frontmatter → Frontmatter → Text → Frontmatter
unfolding update_all merge_key add_source
merge_frontmatter existing_fm incoming_fm source_filename = add_source source_filename (
    merge_key existing_fm incoming_fm (codes "sources") (
      merge_key existing_fm incoming_fm (codes "related")
        (merge_key existing_fm incoming_fm (codes "tags") (update_all existing_fm incoming_fm))))

-- The text before and after the first `---`.
unfoldable pub find_dashes : Text → Option (Text × Text)
unfolding starts_with
find_dashes [] = none
find_dashes (c ∷ s) =
    let rest = find_dashes s in
    if starts_with (codes "---") (c ∷ s)
    then some ([], drop 2 s)
    else elim rest [ none ↦ none | some (before, after) ↦ some (c ∷ before, after) ]

-- A file system, by the file that a path of the project names, and its texts.
abbrev pub Files : Type 0
Files = Text → Option Text

-- What a write leaves and whether it raises: the text, or what was written of it before the error.
pub data Written : Type 0 where
  whole : Written
  torn : Text → Written

-- What `yaml.safe_load` does: it returns a dictionary, or something else or raises `YAMLError`, or
-- raises another exception, as `ValueError` for a date that does not exist.
pub data Loaded : Type 0 where
  dictionary : Frontmatter → Loaded
  no_dictionary : Loaded
  load_raises : Loaded

-- `yaml.safe_load`, `yaml.dump`, the model's merge of two pages (none if it raises), the file that a
-- path names, and what becomes of a write.
pub record Outside : Type 0 where
  pub safe_load : Text → Loaded
  pub dump : Frontmatter → Text
  pub llm_merge : Text → Text → Option Text
  pub file_of : Text → Text
  pub disk : Text → Text → Written

abbrev pub read_text : Option Text → Option Text
read_text none = none
read_text (some text) = some (newlines text)

-- What a read in text mode returns.
abbrev pub read_at : Text → Files → Option Text
read_at file files = read_text (files file)

unfoldable pub write_at : Text → Option Text → Files → Files
unfolding text_beq
write_at file content files f = if text_beq f file then content else files f

unfoldable pub land : Text → Text → Files → Written → Bool × Files
land file text files whole = (true, write_at file (some text) files)
land file text files (torn left) = (false, write_at file (some left) files)

module _ (o : Outside) where
  -- None if it raises.
  unfoldable pub parse_frontmatter : Text → Option (Option Frontmatter × Text)
  unfolding strip starts_with find_dashes
  parse_frontmatter content =
      let stripped = strip content in
      if starts_with (codes "---") stripped
      then elim (find_dashes (drop 3 stripped)) [
        | none ↦ some (none, content)
        | some (fm_text, body) ↦ elim (o.safe_load (strip fm_text)) [
          | no_dictionary ↦ some (none, content)
          | dictionary fm ↦ some (some fm, strip body)
          | load_raises ↦ none
        ]
      ]
      else some (none, content)

  unfoldable pub rebuild_page : Frontmatter → Text → Text
  unfolding strip
  rebuild_page fm body =
      codes "---\n" ++ (strip (o.dump fm) ++ (codes "\n---\n\n" ++ (body ++ codes "\n")))

  -- The entries of a frontmatter; `if fm:` asks whether there are any.
  abbrev pub entries_of : Option Frontmatter → Frontmatter
  entries_of none = []
  entries_of (some fm) = fm

  -- The merged page, from the parsed answer of the model.
  unfoldable pub merged_from :
      Text → Frontmatter → Frontmatter → Text → Text → Option (Option Frontmatter × Text) → Text
  unfolding merge_frontmatter rebuild_page
  merged_from source existing_fm merged_fm incoming_body merged_raw none =
      rebuild_page merged_fm incoming_body
  merged_from source existing_fm merged_fm incoming_body merged_raw (some (fm2, merged_body)) =
      if is_nil (entries_of fm2)
      then rebuild_page merged_fm merged_raw
      else rebuild_page (merge_frontmatter existing_fm (entries_of fm2) source) merged_body

  -- The merged page of the model, or what replaces it if the try block raises.
  unfoldable pub merged_page : Text → Frontmatter → Frontmatter → Text → Option Text → Text
  unfolding parse_frontmatter rebuild_page merged_from
  merged_page source existing_fm merged_fm incoming_body none = rebuild_page merged_fm incoming_body
  merged_page source existing_fm merged_fm incoming_body (some merged_raw) =
      merged_from source existing_fm merged_fm incoming_body merged_raw
        (parse_frontmatter merged_raw)

  -- `final_content` from the two parsed pages.
  unfoldable pub merge_parsed :
      Text → ParsedFileBlock → Text → Option Frontmatter × Text → Option Frontmatter × Text → Text
  unfolding merge_frontmatter rebuild_page merged_page text_beq
  merge_parsed source block existing (existing_fm, existing_body) (incoming_fm, incoming_body) =
      let merged_fm = merge_frontmatter (entries_of existing_fm) (entries_of incoming_fm) source in
      if is_nil (entries_of existing_fm) || is_nil (entries_of incoming_fm)
      then block.content
      else if text_beq block.path (codes "wiki/index.md")
          || text_beq block.path (codes "wiki/overview.md")
      then rebuild_page merged_fm incoming_body
      else merged_page source (entries_of existing_fm) merged_fm incoming_body
          (o.llm_merge existing block.content)

  unfoldable pub merge_both :
      Text
      → ParsedFileBlock
      → Text
      → Option (Option Frontmatter × Text)
      → Option (Option Frontmatter × Text)
      → Option Text
  unfolding merge_parsed
  merge_both source block existing none y = none
  merge_both source block existing (some x) none = none
  merge_both source block existing (some x) (some y) = some (merge_parsed source block existing x y)

  -- `final_content` for a page that exists; none if it raises.
  unfoldable pub merge_page : Text → ParsedFileBlock → Text → Option Text
  unfolding parse_frontmatter merge_both strip
  merge_page source block existing =
      if is_empty (strip existing)
      then some block.content
      else merge_both source block existing (parse_frontmatter existing)
          (parse_frontmatter block.content)

  unfoldable pub final_content : Text → ParsedFileBlock → Option Text → Option Text
  unfolding merge_page strip rstrip text_beq
  final_content source block existing =
      if text_beq block.path (codes "wiki/log.md")
      then some (
          rstrip (elim existing [ none ↦ [] | some t ↦ t ])
          ++ (codes "\n\n" ++ (strip block.content ++ codes "\n")))
      else elim existing [ none ↦ some block.content | some t ↦ merge_page source block t ]

  -- The write of the final content, if there is one.
  unfoldable pub write_final : Text → Option Text → Files → Bool × Files
  write_final file none files = (false, files)
  write_final file (some text) files = land file text files (o.disk file text)

  -- Whether the write of a block returned, and the files.
  unfoldable pub write_block : Text → ParsedFileBlock → Files → Bool × Files
  write_block source block files =
      let file = o.file_of block.path in
      write_final file (final_content source block (read_at file files)) files

  -- The loop over the blocks: the written paths, or none if it raised, and the files.
  unfoldable pub write_file_blocks :
      Text → List ParsedFileBlock → Files → Option (List Text) × Files
  write_file_blocks source [] files = (some [], files)
  write_file_blocks source (block ∷ blocks) files =
      let (returned, files1) = write_block source block files in
      let (written, files2) = write_file_blocks source blocks files1 in
      if returned
      then (elim written [ none ↦ none | some paths ↦ some (block.path ∷ paths) ], files2)
      else (none, files1)
