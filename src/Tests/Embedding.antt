-- ===== src/Tests/Embedding.antt =====
-- app/embedding/service.py on a table that is a list of rows.
use llm_wiki_engine.Prelude.{ap, sym, Option, none, ℕ, some, List, [], ◌∷◌, ◌++◌}
use llm_wiki_engine.Text.{Text, codes}
use llm_wiki_engine.Embedding.Service.{PageRead, content, Lance, Row}
use llm_wiki_engine.Embedding.Service.Upsert.{IsTable, rows_but}
use llm_wiki_engine.Embedding.Service.Ends.{Ends}

-- A vector is its dimension.
abbrev Rows : Type 0
Rows = List (Row ℕ)

abbrev row_lists : Lance ℕ Rows
row_lists = record {
  rows = λ t. t;
  delete_page = λ id t. some (rows_but id t);
  add = λ rs t. some (t ++ rs);
  create_table = λ rs. some rs;
}

abbrev rows_or : Option Rows → Rows
rows_or none = []
rows_or (some rs) = rs

abbrev row_lists_fine : IsTable row_lists
row_lists_fine = record {
  deletes = λ id t left e. ap rows_or (sym e);
  adds = λ rs t after e. ap rows_or (sym e);
  creates = λ rs after e. ap rows_or (sym e);
}

abbrev one_page : Text → PageRead
one_page path = content (codes "# A\nbody")

abbrev old_rows : Rows
old_rows =
    record {
      meta = record {
        chunk_id = codes "a#0";
        page_id = codes "a";
        chunk_index = 0;
        chunk_text = codes "old";
        heading_path = [];
      };
      vector = 2;
    }
    ∷ []
