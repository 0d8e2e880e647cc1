-- ===== src/Ingest/Queue/Enqueue.antt =====
-- app/ingest/queue.py: the creation of jobs, and their recovery when the server starts.
pub mod Laws
pub mod Rows
use llm_wiki_engine.Prelude.{
  ℕ, suc, ◌+◌, String, Bool, true, false, not, ◌&&◌, Option, none, some, List, [], ◌∷◌, ◌++◌, map,
  length, filter, contains, sort_by, ◌==◌, string_eq, if◌then◌else◌,
}
use llm_wiki_engine.Ingest.Queue.{
  pending, processing, status_eq, queued, IngestJob, IngestQueue, Project, Task, find_project,
  is_project_paused, schedule_task, task_of,
}
use llm_wiki_engine.Ingest.Queue.Control.{by_created}

-- The row of `db.add(IngestJob(...))`; `created_at` is the column's server default.
unfoldable pub new_job : String → String → String → ℕ → ℕ → IngestJob
new_job job_id project_id source_path user_id now = record {
  id = job_id;
  project_id = project_id;
  source_path = source_path;
  status = pending;
  progress = queued;
  step = 0;
  files_written = none;
  error = none;
  retry_count = 0;
  created_by = user_id;
  created_at = now;
  completed_at = none;
}

-- `uuid.uuid4()` at its n-th call.
module _ (uuid4 : ℕ → String) where
  -- The loop of `db.add` over the source paths, from the n-th id on.
  unfoldable pub new_jobs : String → List String → ℕ → ℕ → ℕ → List IngestJob
  unfolding new_job
  new_jobs project_id [] user_id now n = []
  new_jobs project_id (path ∷ paths) user_id now n =
      new_job (uuid4 n) project_id path user_id now ∷ new_jobs project_id paths user_id now (suc n)

  -- `_create_job`
  unfoldable pub create_job : String → String → ℕ → IngestQueue → String × IngestQueue
  unfolding new_job
  create_job project_id source_path user_id q = (
    uuid4 q.drawn,
    record q {
      jobs = q.jobs ++ new_job (uuid4 q.drawn) project_id source_path user_id q.clock ∷ [];
      drawn = suc q.drawn;
    },
  )

  unfoldable pub schedule_each : String → List IngestJob → IngestQueue → IngestQueue
  unfolding schedule_task
  schedule_each project_dir [] q = q
  schedule_each project_dir (job ∷ jobs) q =
      schedule_each project_dir jobs (schedule_task (task_of job project_dir 0) q)

  unfoldable pub enqueue_many :
      String → String → List String → ℕ → IngestQueue → List String × IngestQueue
  unfolding new_jobs schedule_each is_project_paused
  enqueue_many project_id project_dir [] user_id q = ([], q)
  enqueue_many project_id project_dir (path ∷ paths) user_id q =
      let source_paths = path ∷ paths in
      let rows = new_jobs project_id source_paths user_id q.clock q.drawn in
      let q1 = record q { jobs = q.jobs ++ rows; drawn = q.drawn + length source_paths } in
      (
        map (λ j. j.id) rows,
        if is_project_paused project_id q1 then q1 else schedule_each project_dir rows q1,
      )

  -- `job_ids[0]`, which exists since one path was given.
  unfoldable pub enqueue : String → String → String → ℕ → IngestQueue → Option String × IngestQueue
  unfolding enqueue_many
  enqueue project_id project_dir source_path user_id q =
      let (ids, q1) = enqueue_many project_id project_dir (source_path ∷ []) user_id q in
      (elim ids [ [] ↦ none | job_id ∷ rest ↦ some job_id ], q1)

-- SELECT ... WHERE status IN ('pending', 'processing') ORDER BY created_at
unfoldable pub interrupted_jobs : IngestQueue → List IngestJob
unfolding sort_by
interrupted_jobs q =
    sort_by by_created (filter (λ j. contains (pending ∷ processing ∷ []) j.status) q.jobs)

-- The directory to recover into: none if the project is gone, has no directory or is paused.
unfoldable pub recovery_dir : Option Project → Option String
recovery_dir none = none
recovery_dir (some p) =
    if p.disk_path == "" then none else if p.ingest_paused then none else some p.disk_path

-- The loop over the jobs, with the number of recovered ones.
unfoldable pub recover_loop : List IngestJob → IngestQueue → ℕ × IngestQueue
unfolding recovery_dir find_project schedule_task
recover_loop [] q = (0, q)
recover_loop (job ∷ jobs) q = elim (recovery_dir (find_project job.project_id q.projects)) [
  | none ↦ recover_loop jobs q
  | some dir ↦
      let (n, q1) = recover_loop jobs (schedule_task (task_of job dir job.step) q) in (suc n, q1)
]

unfoldable pub recover_interrupted_jobs : IngestQueue → ℕ × IngestQueue
unfolding interrupted_jobs recover_loop
recover_interrupted_jobs q = recover_loop (interrupted_jobs q) q
