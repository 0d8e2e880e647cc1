-- ===== src/Tests/Files.antt =====
-- app/ingest/files.py on a small source tree.
use llm_wiki_engine.Prelude.{
  ℕ, ◌≡◌, refl, Bool, true, none, some, List, [], ◌∷◌, filter, sort_by, arith,
}
use llm_wiki_engine.Prelude.{◌++◌}
use llm_wiki_engine.Text.{text_beq, Text, codes, split_on, strip, is_space}
use llm_wiki_engine.Ingest.Queue.{JobStatus, done, failed, paused, queued, IngestJob}
use llm_wiki_engine.Ingest.Files.{FileStatus, is_failed, is_updated, is_not_queued, FileItem, pos}
use llm_wiki_engine.Ingest.Files.Paths.{Disk, parts, resolve_browser_source_files}
use llm_wiki_engine.Ingest.Files.Paths.Safe.{Resolved, resolve_browser_source_files-Resolved}
use llm_wiki_engine.Ingest.Files.Selection.{
  Selection, validate_all, name_leb, limited, apply_selection,
}
use llm_wiki_engine.Ingest.Files.Selection.Pages.{first_pages, paginate_items-first_pages}
use llm_wiki_engine.Ingest.Files.Selection.Patterns.{passes, apply_selection_exact}
use llm_wiki_engine.Ingest.Files.Status.{resolve_file_statuses}
use llm_wiki_engine.Ingest.Files.Status.Listed.{IsListing, resolve_file_statuses-IsListing}

-- A file system without links, on which every path but the root is a file.
abbrev plain_disk : Disk
plain_disk = record { resolved = parts; is_file = λ p. true; file_size = λ p. 1 }

resolve_browser_source_files_example :
    Resolved plain_disk
      (λ f. codes "/r/" ++ f)
      (parts (codes "/r"))
      (codes "a.md" ∷ [])
      (parts (codes "/r/a.md") ∷ [])
unfolding resolve_browser_source_files parts split_on text_beq
resolve_browser_source_files_example =
    resolve_browser_source_files-Resolved plain_disk (λ f. codes "/r/" ++ f) (parts (codes "/r"))
      (codes "a.md" ∷ []) (parts (codes "/r/a.md") ∷ []) refl

abbrev pub item : Text → FileStatus → FileItem
item name status = record {
  source_file = name;
  source_path = name;
  status = status;
  file_size = none;
  job_id = none;
  job_status = none;
  progress = none;
  step = 0;
  files_written = none;
  error = none;
  retry_count = 0;
  created_at = none;
  completed_at = none;
}

abbrev items : List FileItem
items =
    item (codes "b.md") is_updated
    ∷ item (codes "a.md") is_not_queued
    ∷ item (codes "c.txt") is_failed
    ∷ []

abbrev selection : Selection
selection = record {
  statuses = is_updated ∷ is_not_queued ∷ [];
  include_globs = codes " a.md " ∷ codes "  " ∷ codes "b.md" ∷ [];
  exclude_globs = codes "b.md" ∷ [];
  search = codes ".md";
  limit = some (pos 2);
}

-- Globs without wildcards.
abbrev same_text : Text → Text → Bool
same_text = text_beq

apply_selection_example :
    apply_selection (λ t. t) same_text items selection
    ≡ some (
        limited selection.limit (
          sort_by (name_leb (λ t. t)) (
            filter
              (passes
                (λ t. t)
                same_text
                selection
                (codes "a.md" ∷ codes "b.md" ∷ [])
                (codes "b.md" ∷ []))
              items)))
unfolding validate_all is_space strip text_beq
apply_selection_example =
    apply_selection_exact (λ t. t) same_text items selection (codes "a.md" ∷ codes "b.md" ∷ [])
      (codes "b.md" ∷ []) refl refl

paginate_items_example : first_pages items (pos 2) 2 ≡ items
paginate_items_example = paginate_items-first_pages items (pos 2) 2 (omega arith)

abbrev job : JobStatus → ℕ → IngestJob
job status created_at = record {
  id = "j";
  project_id = "p";
  source_path = "/r/a.md";
  status = status;
  progress = queued;
  step = 0;
  files_written = none;
  error = none;
  retry_count = 0;
  created_by = 1;
  created_at = created_at;
  completed_at = none;
}

resolve_file_statuses_example :
    IsListing plain_disk
      (λ t. t)
      (some (codes "/r"))
      (job done 2 ∷ job failed 1 ∷ job paused 0 ∷ [])
      (codes "b.md" ∷ [])
      (codes "a.md" ∷ codes "b.md" ∷ [])
      (codes "/r/b.md" ∷ codes "/r/a.md" ∷ codes "/r/a.md" ∷ [])
      (resolve_file_statuses plain_disk
        (λ t. t)
        (some (codes "/r"))
        (codes "/r/b.md" ∷ codes "/r/a.md" ∷ codes "/r/a.md" ∷ [])
        (job done 2 ∷ job failed 1 ∷ job paused 0 ∷ [])
        (codes "b.md" ∷ [])
        (codes "a.md" ∷ codes "b.md" ∷ []))
resolve_file_statuses_example =
    resolve_file_statuses-IsListing plain_disk (λ t. t) (some (codes "/r"))
      (job done 2 ∷ job failed 1 ∷ job paused 0 ∷ []) (codes "b.md" ∷ [])
      (codes "a.md" ∷ codes "b.md" ∷ []) (codes "/r/b.md" ∷ codes "/r/a.md" ∷ codes "/r/a.md" ∷ [])
