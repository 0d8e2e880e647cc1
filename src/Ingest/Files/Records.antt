-- ===== src/Ingest/Files/Records.antt =====
-- app/ingest/files.py: the tabs of compile records, listed from jobs and cache alone.
use llm_wiki_engine.Prelude.{
  ℕ, Bool, true, false, not, ◌&&◌, Option, none, some, List, [], ◌∷◌, ◌++◌, map, filter, contains,
  length, ◌==◌, if◌then◌else◌, sort_by,
}
use llm_wiki_engine.Text.{Text, codes, strip, is_empty}
use llm_wiki_engine.Ingest.Queue.{IngestJob}
use llm_wiki_engine.Ingest.Writer.{text_eq, text_leb, dedupe}
use llm_wiki_engine.Ingest.Files.{
  FileStatus, is_processing, is_queued, is_failed, is_updated, is_not_queued, file_status_eq,
  SortDirection, FileItem, ℤ,
}
use llm_wiki_engine.Ingest.Files.Paths.{Disk, parts, name}
use llm_wiki_engine.Ingest.Files.Selection.{filter_and_sort_items, paginate_items}
use llm_wiki_engine.Ingest.Files.Status.{resolve_file_statuses}

-- `status_filter in INGEST_RECORD_STATUSES`
abbrev pub is_record_status : FileStatus → Bool
is_record_status is_not_queued = false
is_record_status _ = true

unfoldable pub is_ingest_records_request : Option FileStatus → Bool → Bool → Text → Bool
is_ingest_records_request none recursive has_filters dir = false
is_ingest_records_request (some s) recursive has_filters dir =
    is_record_status s && not recursive && not has_filters && is_empty (strip dir)

-- The ingest cache: the hash of the contents by the name of the source.
abbrev pub IngestCache : Type 0
IngestCache = List (Text × Text)

unfoldable pub cache_get : Text → IngestCache → Option Text
cache_get key [] = none
cache_get key ((k, h) ∷ cache) = if k == key then some h else cache_get key cache

abbrev pub cache_keys : IngestCache → List Text
cache_keys cache = map (λ entry. entry.0) cache

-- Whether a hash differs from the cached one; a missing key raises, and is caught.
abbrev differs : Option Text → Option Text → Bool
differs none cached = true
differs (some h) none = true
differs (some h) (some c) = not (h == c)

abbrev pub Counts : Type 0
Counts = FileStatus → ℕ

-- The number of items of a status.
unfoldable pub count_status : FileStatus → List FileItem → ℕ
count_status s items = length (filter (λ item. item.status == s) items)

pub record RecordPage : Type 0 where
  pub items : List FileItem
  pub counts : FileStatus → ℕ
  pub total : ℕ
  pub page : ℕ
  pub page_size : ℕ

-- `content_hash` gives the hash of a parsed file, or raises; `at` gives the text of
-- `(source_dir / identity).resolve()`.
module _ (disk : Disk) (lower : Text → Text) (content_hash : Text → Option Text) (at : Text → Text)
    (source_dir : Text) where
  abbrev pub exists_at : Text → Bool
  exists_at identity = disk.is_file (parts (at identity))

  -- One round of `detect_changed_identities`.
  unfoldable pub has_changed : IngestCache → Text → Bool
  has_changed cache identity =
      let key = if contains (cache_keys cache) identity then identity else name (parts identity) in
      exists_at identity && differs (content_hash (at identity)) (cache_get key cache)

  unfoldable pub detect_changed_identities : IngestCache → List Text
  detect_changed_identities cache = filter (has_changed cache) (cache_keys cache)

  -- `list({...})`: the order of a set does not show in the result, which is sorted.
  abbrev pub job_source_paths : List IngestJob → List Text
  job_source_paths jobs = dedupe (map (λ job. codes job.source_path) jobs)

  -- The sources of a tab, by its status.
  unfoldable pub page_sources : FileStatus → List IngestJob → List Text → List Text → List Text
  page_sources is_updated jobs cached changed = map at (filter exists_at (sort_by text_leb changed))
  page_sources is_processing jobs cached changed = job_source_paths jobs
  page_sources is_queued jobs cached changed = job_source_paths jobs
  page_sources is_failed jobs cached changed = job_source_paths jobs
  page_sources _ jobs cached changed =
      map at (filter (λ i. not (contains changed i) && exists_at i) (sort_by text_leb cached))

  -- What the tab takes for changed.
  unfoldable pub page_changed : FileStatus → List Text → List Text
  page_changed is_processing changed = []
  page_changed is_queued changed = []
  page_changed is_failed changed = []
  page_changed _ changed = changed

  -- All items of a tab, before they are cut into pages.
  unfoldable pub tab_items :
      List IngestJob → IngestCache → FileStatus → SortDirection → List FileItem
  tab_items jobs cache status_filter sort_dir =
      let changed = detect_changed_identities cache in
      filter_and_sort_items lower [] sort_dir (
        filter (λ item. item.status == status_filter)
          (resolve_file_statuses disk lower (some source_dir)
            (page_sources status_filter jobs (cache_keys cache) changed) jobs
            (page_changed status_filter changed) (cache_keys cache)))

  -- The items that the counts are taken from.
  unfoldable pub counted_items : List IngestJob → IngestCache → List FileItem
  counted_items jobs cache =
      resolve_file_statuses disk lower (some source_dir)
        (dedupe (job_source_paths jobs ++ map at (filter exists_at (cache_keys cache)))) jobs
        (detect_changed_identities cache) (cache_keys cache)

  unfoldable pub build_ingest_record_page :
      List IngestJob → IngestCache → FileStatus → SortDirection → ℤ → ℤ → RecordPage
  build_ingest_record_page jobs cache status_filter sort_dir page page_size =
      let shown = paginate_items (tab_items jobs cache status_filter sort_dir) page page_size in
      record {
        items = shown.items;
        counts = λ s. count_status s (counted_items jobs cache);
        total = shown.total;
        page = shown.page;
        page_size = shown.page_size;
      }
