-- ===== src/Ingest/Queue.antt =====
-- app/ingest/queue.py and app/ingest/models.py: the job table, the pause flags of the projects and
-- the table of scheduled asyncio tasks. Each method is a function from the queue to the queue.
pub mod Control
pub mod Enqueue
pub mod Run
pub mod Workers
use llm_wiki_engine.Prelude.{
  ℕ, suc, ◌+◌, String, ◌≡◌, refl, ◌↔◌, ap, Bool, true, false, not, ◌&&◌, Option, none, some, List,
  [], ◌∷◌, ◌++◌, map, arith, length, filter, contains, sort_by, leb, Eq, ◌==◌, string_eq,
  if◌then◌else◌,
}

pub data JobStatus : Type 0 where
  pending processing paused done failed : JobStatus

abbrev pub status_beq : JobStatus → JobStatus → Bool
status_beq pending pending = true
status_beq processing processing = true
status_beq paused paused = true
status_beq done done = true
status_beq failed failed = true
status_beq _ _ = false

pub status_beq_iff : (a b : JobStatus) → (status_beq a b ≡ true) ↔ (a ≡ b)
status_beq_iff a b = ground arith

instance abbrev pub status_eq : Eq JobStatus
status_eq = record { equal = status_beq; equal_iff = status_beq_iff }

-- The texts of the column `progress`, by their format.
pub data Progress : Type 0 where
  queued pausing paused_text starting complete failed_text : Progress
  retry : ℕ → ℕ → Progress
  message : String → Progress

pub record IngestJob : Type 0 where
  pub id : String
  pub project_id : String
  pub source_path : String
  pub status : JobStatus
  pub progress : Progress
  pub step : ℕ
  pub files_written : Option (List String)
  pub error : Option String
  pub retry_count : ℕ
  pub created_by : ℕ
  pub created_at : ℕ
  pub completed_at : Option ℕ

-- The columns of `Project` that the queue reads.
pub record Project : Type 0 where
  pub id : String
  pub disk_path : String
  pub ingest_paused : Bool

-- The arguments that `_schedule_task` gives to `_run_job`.
pub record Task : Type 0 where
  pub job_id : String
  pub project_id : String
  pub project_dir : String
  pub source_path : String
  pub resume_step : ℕ

-- The database tables, `_tasks`, the clock that stamps rows, and the number of ids drawn so far.
pub record IngestQueue : Type 0 where
  pub jobs : List IngestJob
  pub projects : List Project
  pub tasks : List Task
  pub clock : ℕ
  pub drawn : ℕ

abbrev pub max_retries : ℕ
max_retries = 2

-- SELECT ... WHERE id = job_id
unfoldable pub find_job : String → List IngestJob → Option IngestJob
find_job job_id [] = none
find_job job_id (j ∷ js) = if j.id == job_id then some j else find_job job_id js

-- UPDATE ... WHERE id = job_id
unfoldable pub update_rows : String → (IngestJob → IngestJob) → List IngestJob → List IngestJob
update_rows job_id f [] = []
update_rows job_id f (j ∷ js) = (if j.id == job_id then f j else j) ∷ update_rows job_id f js

unfoldable pub find_project : String → List Project → Option Project
find_project project_id [] = none
find_project project_id (p ∷ ps) = if p.id == project_id then some p else find_project project_id ps

unfoldable pub flag_rows : String → Bool → List Project → List Project
flag_rows project_id flag [] = []
flag_rows project_id flag (p ∷ ps) =
    (if p.id == project_id then record p { ingest_paused = flag } else p)
    ∷ flag_rows project_id flag ps

unfoldable pub get_job : String → IngestQueue → Option IngestJob
unfolding find_job
get_job job_id q = find_job job_id q.jobs

unfoldable pub update_job : String → (IngestJob → IngestJob) → IngestQueue → IngestQueue
unfolding update_rows
update_job job_id f q = record q { jobs = update_rows job_id f q.jobs }

unfoldable pub is_project_paused : String → IngestQueue → Bool
unfolding find_project
is_project_paused project_id q = elim (find_project project_id q.projects) [
  | none ↦ false
  | some p ↦ p.ingest_paused
]

unfoldable pub set_project_paused : String → Bool → IngestQueue → IngestQueue
unfolding flag_rows
set_project_paused project_id flag q = record q { projects = flag_rows project_id flag q.projects }

unfoldable pub is_paused : String → IngestQueue → Bool
unfolding get_job
is_paused job_id q = elim (get_job job_id q) [ none ↦ false | some job ↦ job.status == paused ]

-- `job_id in self._tasks`
unfoldable pub is_scheduled : String → List Task → Bool
is_scheduled job_id [] = false
is_scheduled job_id (t ∷ ts) = if t.job_id == job_id then true else is_scheduled job_id ts

-- `self._tasks[job_id] = task`: an entry of the same key is replaced where it stands.
unfoldable pub put_task : Task → List Task → List Task
put_task t [] = t ∷ []
put_task t (u ∷ us) = if u.job_id == t.job_id then t ∷ us else u ∷ put_task t us

unfoldable pub schedule_task : Task → IngestQueue → IngestQueue
unfolding put_task
schedule_task t q = record q { tasks = put_task t q.tasks }

-- The done callback, `self._tasks.pop(jid, None)`.
unfoldable pub pop_task : String → List Task → List Task
pop_task job_id [] = []
pop_task job_id (t ∷ ts) =
    let rest = pop_task job_id ts in if t.job_id == job_id then rest else t ∷ rest

abbrev pub task_of : IngestJob → String → ℕ → Task
task_of job project_dir resume_step = record {
  job_id = job.id;
  project_id = job.project_id;
  project_dir = project_dir;
  source_path = job.source_path;
  resume_step = resume_step;
}
