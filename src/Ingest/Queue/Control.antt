-- ===== src/Ingest/Queue/Control.antt =====
-- app/ingest/queue.py: pausing and resuming of jobs and of projects.
pub mod Pausing
pub mod Others
pub mod Resuming
use llm_wiki_engine.Prelude.{
  ℕ, suc, ◌+◌, ◌-◌, String, Bool, true, false, not, ◌&&◌, Option, none, some, List, [], ◌∷◌, ◌++◌,
  length, filter, contains, sort_by, leb, ◌==◌, string_eq, if◌then◌else◌,
}
use llm_wiki_engine.Ingest.Queue.{
  JobStatus, pending, processing, paused, status_eq, pausing, paused_text, queued, IngestJob,
  IngestQueue, Task, get_job, update_job, is_project_paused, set_project_paused, is_scheduled,
  schedule_task, task_of,
}

abbrev pub is_active : JobStatus → Bool
is_active s = contains (pending ∷ processing ∷ []) s

-- The values that `pause_job` writes, by the status that it read.
abbrev pub pause_values : IngestJob → IngestJob → IngestJob
pause_values job row = record row {
  status = paused;
  progress = if job.status == processing then pausing else paused_text;
}

unfoldable pub pause_job : String → IngestQueue → Bool × IngestQueue
unfolding get_job update_job
pause_job job_id q = elim (get_job job_id q) [
  | none ↦ (false, q)
  | some job ↦
      if is_active job.status then (true, update_job job_id (pause_values job) q) else (false, q)
]

abbrev pub requeue_values : IngestJob → IngestJob
requeue_values row = record row { status = pending; progress = queued }

-- The last statement of `resume_job`; `q` is the queue after the update of the row.
unfoldable pub schedule_unless_busy : IngestJob → String → String → IngestQueue → IngestQueue
unfolding is_scheduled is_project_paused schedule_task
schedule_unless_busy job project_id project_dir q =
    if not (is_scheduled job.id q.tasks) && not (is_project_paused project_id q)
    then schedule_task (record (task_of job project_dir job.step) { project_id = project_id }) q
    else q

unfoldable pub resume_job : String → String → String → IngestQueue → Bool × IngestQueue
unfolding get_job update_job schedule_unless_busy
resume_job job_id project_id project_dir q = elim (get_job job_id q) [
  | none ↦ (false, q)
  | some job ↦
      if job.project_id == project_id && job.status == paused
      then (
        true,
        schedule_unless_busy job project_id project_dir (update_job job_id requeue_values q),
      )
      else (false, q)
]

-- A loop over the rows of a select that counts the calls which return True.
unfoldable pub count_calls :
    (IngestJob → IngestQueue → Bool × IngestQueue) → List IngestJob → IngestQueue → ℕ × IngestQueue
count_calls call [] q = (0, q)
count_calls call (job ∷ jobs) q =
    let (hit, q1) = call job q in
    let (n, q2) = count_calls call jobs q1 in (if hit then suc n else n, q2)

-- SELECT ... WHERE project_id = ... AND status IN (...)
unfoldable pub select_jobs : String → List JobStatus → List IngestJob → List IngestJob
select_jobs project_id statuses =
    filter (λ j. j.project_id == project_id && contains statuses j.status)

unfoldable pub pause_all : String → Bool → IngestQueue → ℕ × IngestQueue
unfolding select_jobs count_calls pause_job
pause_all project_id include_pending q =
    let statuses = if include_pending then processing ∷ pending ∷ [] else processing ∷ [] in
    count_calls (λ job. pause_job job.id) (select_jobs project_id statuses q.jobs) q

-- DELETE ... WHERE project_id = ... AND status IN ('pending', 'paused'), and the row count
unfoldable pub delete_waiting_jobs : String → IngestQueue → ℕ × IngestQueue
unfolding select_jobs
delete_waiting_jobs project_id q = (
  length (select_jobs project_id (pending ∷ paused ∷ []) q.jobs),
  record q {
    jobs =
        filter (λ j. not (j.project_id == project_id && contains (pending ∷ paused ∷ []) j.status))
          q.jobs;
  },
)

-- The keys `cleared` and `paused` of the result, and the queue.
unfoldable pub pause_project : String → IngestQueue → ℕ × ℕ × IngestQueue
unfolding set_project_paused delete_waiting_jobs pause_all
pause_project project_id q =
    let (cleared, q1) = delete_waiting_jobs project_id (set_project_paused project_id true q) in
    let (stopped, q2) = pause_all project_id false q1 in (cleared, stopped, q2)

-- ORDER BY created_at ASC
abbrev pub by_created : IngestJob → IngestJob → Bool
by_created a b = leb a.created_at b.created_at

unfoldable pub get_pending_jobs : String → IngestQueue → List IngestJob
unfolding select_jobs sort_by
get_pending_jobs project_id q = sort_by by_created (select_jobs project_id (pending ∷ []) q.jobs)

-- One round of the loop of `resume_project`.
unfoldable pub schedule_pending : String → String → IngestJob → IngestQueue → Bool × IngestQueue
unfolding is_scheduled schedule_task
schedule_pending project_id project_dir job q =
    if is_scheduled job.id q.tasks then (false, q) else (
      true,
      schedule_task (record (task_of job project_dir job.step) { project_id = project_id }) q,
    )

unfoldable pub resume_project : String → String → IngestQueue → ℕ × IngestQueue
unfolding set_project_paused get_pending_jobs count_calls schedule_pending
resume_project project_id project_dir q =
    let q1 = set_project_paused project_id false q in
    count_calls (schedule_pending project_id project_dir) (get_pending_jobs project_id q1) q1

unfoldable pub resume_all : String → String → IngestQueue → ℕ × IngestQueue
unfolding select_jobs count_calls resume_job
resume_all project_id project_dir q =
    count_calls (λ job. resume_job job.id project_id project_dir)
      (select_jobs project_id (paused ∷ []) q.jobs) q
