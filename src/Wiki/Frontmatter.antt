-- ===== src/Wiki/Frontmatter.antt =====
-- app/wiki/frontmatter.py: the fields and the body of a page. PyYAML and the text of a value that is
-- no string are given.
use llm_wiki_engine.Prelude.{Option, none, some, List, [], drop, if◌then◌else◌}
use llm_wiki_engine.Text.{Text, codes, strip, starts_with}
use llm_wiki_engine.Ingest.Writer.{
  Value, items, str, other, Frontmatter, get_value, to_str_list, find_dashes,
}

-- The raw dictionary and the dates, which no other part reads, are left out.
pub record PageMeta : Type 0 where
  pub page_type : Text
  pub title : Text
  pub tags : List Text
  pub related : List Text
  pub sources : List Text

abbrev pub no_meta : PageMeta
no_meta = record { page_type = []; title = []; tags = []; related = []; sources = [] }

-- `yaml.safe_load` where it returns a dictionary, and `str` of a value that is no string.
pub record Yaml : Type 0 where
  pub safe_load : Text → Option Frontmatter
  pub show : Value → Text

abbrev pub to_list : Option Value → List Text
to_list v = to_str_list v

module _ (yaml : Yaml) where
  -- `str(data.get(key, ""))`
  unfoldable pub show_at : Option Value → Text
  show_at none = []
  show_at (some (str v)) = v
  show_at (some (items vs)) = yaml.show (items vs)
  show_at (some (other v)) = yaml.show (other v)

  unfoldable pub meta_of : Frontmatter → PageMeta
  unfolding get_value to_str_list show_at
  meta_of fm = record {
    page_type = show_at (get_value (codes "type") fm);
    title = show_at (get_value (codes "title") fm);
    tags = to_list (get_value (codes "tags") fm);
    related = to_list (get_value (codes "related") fm);
    sources = to_list (get_value (codes "sources") fm);
  }

  unfoldable pub parse_frontmatter : Text → PageMeta × Text
  unfolding strip starts_with find_dashes meta_of
  parse_frontmatter content =
      let stripped = strip content in
      if starts_with (codes "---") stripped
      then elim (find_dashes (drop 3 stripped)) [
        | none ↦ (no_meta, content)
        | some (fm_text, body) ↦ elim (yaml.safe_load (strip fm_text)) [
          | none ↦ (no_meta, content)
          | some fm ↦ (meta_of fm, strip body)
        ]
      ]
      else (no_meta, content)
