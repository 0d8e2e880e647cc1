-- ===== src/Ingest/Files/Status.antt =====
-- app/ingest/files.py: the status of each source, from its jobs and from the cache.
pub mod Choice
pub mod Listed
use llm_wiki_engine.Prelude.{
  ℕ, suc, String, Bool, true, false, not, ◌&&◌, ◌||◌, Option, none, some, List, [], ◌∷◌, map,
  contains, ltb, leb, ◌==◌, string_eq, nat_eq, if◌then◌else◌, sort_by,
}
use llm_wiki_engine.Text.{Text, codes}
use llm_wiki_engine.Ingest.Queue.{
  JobStatus, pending, processing, paused, done, failed, status_eq, Progress, IngestJob,
}
use llm_wiki_engine.Ingest.Writer.{text_eq, text_leb}
use llm_wiki_engine.Ingest.Files.{
  FileStatus, is_processing, is_queued, is_failed, is_updated, is_not_queued, is_compiled,
  status_priority, FileItem,
}
use llm_wiki_engine.Ingest.Files.Paths.{Disk, parts, source_identity}

-- `status in _ACTIVE_JOB_STATUSES`
abbrev pub is_live : JobStatus → Bool
is_live processing = true
is_live pending = true
is_live paused = true
is_live done = false
is_live failed = false

-- `_job_file_status`
abbrev pub job_file_status : JobStatus → Option FileStatus
job_file_status processing = some is_processing
job_file_status pending = some is_queued
job_file_status paused = some is_queued
job_file_status failed = some is_failed
job_file_status done = none

-- `_job_sort_key`: the column `created_at` has a default and is never null.
abbrev pub job_sort_key : IngestJob → ℕ
job_sort_key job = job.created_at

abbrev pub by_sort_key : IngestJob → IngestJob → Bool
by_sort_key a b = leb (job_sort_key a) (job_sort_key b)

-- The choice between two active jobs, by their statuses in the listing.
unfoldable pub by_priority :
    Option FileStatus → Option FileStatus → IngestJob → IngestJob → IngestJob
by_priority none none current job =
    if leb (job_sort_key current) (job_sort_key job) then job else current
by_priority none (some n) current job = job
by_priority (some c) none current job = current
by_priority (some c) (some n) current job =
    if ltb (status_priority n) (status_priority c) then job else current

-- The body of the loop over the jobs for an identity that has a job already.
unfoldable pub choose_job : IngestJob → IngestJob → IngestJob
unfolding by_priority
choose_job current job =
    if not (is_live current.status) && not (is_live job.status)
    then job
    else if is_live job.status && not (is_live current.status)
    then job
    else if is_live current.status && not (is_live job.status)
    then current
    else by_priority (job_file_status current.status) (job_file_status job.status) current job

-- `latest_job_by_identity`
abbrev pub LatestJobs : Type 0
LatestJobs = List (Text × IngestJob)

unfoldable pub note_job : Text → IngestJob → LatestJobs → LatestJobs
note_job identity job [] = (identity, job) ∷ []
note_job identity job ((i, current) ∷ latest) =
    let rest = note_job identity job latest in
    if i == identity then (i, choose_job current job) ∷ latest else (i, current) ∷ rest

unfoldable pub find_latest : Text → LatestJobs → Option IngestJob
find_latest identity [] = none
find_latest identity ((i, job) ∷ latest) =
    if i == identity then some job else find_latest identity latest

-- The job's own status, or what the contents say.
unfoldable pub status_of : Option FileStatus → Bool → Bool → FileStatus
status_of (some status) changed cached = status
status_of none changed cached =
    if changed then is_updated else if cached then is_compiled else is_not_queued

abbrev pub job_status_of : Option IngestJob → Option FileStatus
job_status_of none = none
job_status_of (some job) = job_file_status job.status

-- The columns that an item takes from its job.
unfoldable pub item_of : Text → Text → Option ℕ → FileStatus → Option IngestJob → FileItem
item_of identity path size status none = record {
  source_file = identity;
  source_path = path;
  status = status;
  file_size = size;
  job_id = none;
  job_status = none;
  progress = none;
  step = 0;
  files_written = none;
  error = none;
  retry_count = 0;
  created_at = none;
  completed_at = none;
}
item_of identity path size status (some job) = record {
  source_file = identity;
  source_path = path;
  status = status;
  file_size = size;
  job_id = some job.id;
  job_status = some job.status;
  progress = some job.progress;
  step = job.step;
  files_written = job.files_written;
  error = job.error;
  retry_count = job.retry_count;
  created_at = some job.created_at;
  completed_at = job.completed_at;
}

-- The file system, `str.lower`, and the root that sources are named below.
module _ (disk : Disk) (lower : Text → Text) (source_root : Option Text) where
  abbrev pub identity_of : Text → Text
  identity_of path = source_identity disk path source_root

  abbrev pub identity_of_job : IngestJob → Text
  identity_of_job job = identity_of (codes job.source_path)

  unfoldable pub latest_jobs : List IngestJob → LatestJobs → LatestJobs
  latest_jobs [] latest = latest
  latest_jobs (job ∷ jobs) latest = latest_jobs jobs (note_job (identity_of_job job) job latest)

  abbrev size_of : Text → Option ℕ
  size_of path = if disk.is_file (parts path) then some (disk.file_size (parts path)) else none

  -- One round of the loop that builds the items.
  unfoldable pub build_item : LatestJobs → List Text → List Text → Text → FileItem
  build_item latest changed cached path =
      let job = find_latest (identity_of path) latest in
      item_of (identity_of path) path (size_of path)
        (status_of (job_status_of job) (contains changed (identity_of path))
          (contains cached (identity_of path)))
        job

  -- The loop over the sorted paths, with the identities seen so far.
  unfoldable pub build_items :
      LatestJobs → List Text → List Text → List Text → List Text → List FileItem
  build_items latest changed cached seen [] = []
  build_items latest changed cached seen (path ∷ paths) =
      let known = contains seen (identity_of path) in
      let rest =
        build_items latest changed cached (if known then seen else identity_of path ∷ seen) paths in
      if known then rest else build_item latest changed cached path ∷ rest

  abbrev pub by_identity : Text → Text → Bool
  by_identity p q = text_leb (lower (identity_of p)) (lower (identity_of q))

  unfoldable pub resolve_file_statuses :
      List Text → List IngestJob → List Text → List Text → List FileItem
  resolve_file_statuses source_paths jobs changed cached =
      build_items (latest_jobs (sort_by by_sort_key jobs) []) changed cached []
        (sort_by by_identity source_paths)
