-- ===== src/Ingest/EnqueueTasks.antt =====
-- app/ingest/enqueue_tasks.py: the progress of enqueue requests, in memory.
use llm_wiki_engine.Prelude.{
  ℕ, min, String, Bool, true, false, ◌&&◌, Option, none, some, List, [], ◌∷◌, ◌++◌, ◌==◌, string_eq,
  if◌then◌else◌,
}
use llm_wiki_engine.Text.{Text}
use llm_wiki_engine.Ingest.Files.{ℤ, nonneg}

pub data EnqueueStatus : Type 0 where
  queued_task running_task succeeded_task failed_task : EnqueueStatus

-- The texts of `stage`, by their format.
pub data EnqueueStage : Type 0 where
  waiting_start preparing checking preparing_files creating_jobs enqueue_failed : EnqueueStage
  copying : ℕ → ℕ → Text → EnqueueStage
  enqueued_files : ℕ → EnqueueStage

-- `EnqueueTaskResponse`
pub record EnqueueTask : Type 0 where
  pub task_id : String
  pub project_id : String
  pub status : EnqueueStatus
  pub progress : ℕ
  pub stage : EnqueueStage
  pub file_count : ℕ
  pub enqueued_count : ℕ
  pub job_ids : List String
  pub error : Text

-- The arguments of `set_enqueue_task`.
pub record Changes : Type 0 where
  pub status : Option EnqueueStatus
  pub progress : Option ℤ
  pub stage : Option EnqueueStage
  pub file_count : Option ℕ
  pub enqueued_count : Option ℕ
  pub job_ids : Option (List String)
  pub error : Option Text

abbrev pub no_changes : Changes
no_changes = record {
  status = none;
  progress = none;
  stage = none;
  file_count = none;
  enqueued_count = none;
  job_ids = none;
  error = none;
}

-- if value is not None: old = value
abbrev pub given {ℓ} : {A : Type ℓ} → Option A → A → A
given none old = old
given (some a) old = a

-- max(0, min(100, progress))
abbrev pub clamped : Option ℤ → Option ℕ
clamped none = none
clamped (some z) = some (min 100 (nonneg z))

abbrev pub change_task : Changes → EnqueueTask → EnqueueTask
change_task c t = record t {
  status = given c.status t.status;
  progress = given (clamped c.progress) t.progress;
  stage = given c.stage t.stage;
  file_count = given c.file_count t.file_count;
  enqueued_count = given c.enqueued_count t.enqueued_count;
  job_ids = given c.job_ids t.job_ids;
  error = given c.error t.error;
}

unfoldable pub get_enqueue_task : String → List EnqueueTask → Option EnqueueTask
get_enqueue_task task_id [] = none
get_enqueue_task task_id (t ∷ ts) =
    if t.task_id == task_id then some t else get_enqueue_task task_id ts

-- `_tasks[task_id]` raises `KeyError` for an id that is not there; the caller has created it.
unfoldable pub set_enqueue_task : String → Changes → List EnqueueTask → List EnqueueTask
set_enqueue_task task_id c [] = []
set_enqueue_task task_id c (t ∷ ts) =
    let rest = set_enqueue_task task_id c ts in
    if t.task_id == task_id then change_task c t ∷ ts else t ∷ rest

abbrev pub new_task_row : String → String → ℕ → EnqueueTask
new_task_row task_id project_id file_count = record {
  task_id = task_id;
  project_id = project_id;
  status = queued_task;
  progress = 0;
  stage = waiting_start;
  file_count = file_count;
  enqueued_count = 0;
  job_ids = [];
  error = [];
}

-- `task_id` is `uuid4().hex`, which is new.
unfoldable pub create_enqueue_task : String → String → ℕ → List EnqueueTask → List EnqueueTask
create_enqueue_task task_id project_id file_count tasks =
    tasks ++ new_task_row task_id project_id file_count ∷ []

abbrev is_active_task : EnqueueStatus → Bool
is_active_task queued_task = true
is_active_task running_task = true
is_active_task _ = false

-- The last task of the project that is active.
unfoldable pub get_active_enqueue_task : String → List EnqueueTask → Option EnqueueTask
get_active_enqueue_task project_id [] = none
get_active_enqueue_task project_id (t ∷ ts) = elim (get_active_enqueue_task project_id ts) [
  | some u ↦ some u
  | none ↦ if t.project_id == project_id && is_active_task t.status then some t else none
]
