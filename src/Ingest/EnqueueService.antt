-- ===== src/Ingest/EnqueueService.antt =====
-- app/ingest/enqueue_service.py: the choice of the files to compile, their staging and their jobs, with
-- the progress of the request.
pub mod Ends
use llm_wiki_engine.Prelude.{
  ℕ, suc, ◌+◌, String, Bool, true, false, not, Option, none, some, List, [], ◌∷◌, filter, length,
  contains, is_nil, ◌==◌, if◌then◌else◌,
}
use llm_wiki_engine.Text.{Text}
use llm_wiki_engine.Ingest.Writer.{text_eq}
use llm_wiki_engine.Ingest.Queue.{IngestQueue}
use llm_wiki_engine.Ingest.Queue.Enqueue.{enqueue_many}
use llm_wiki_engine.Ingest.Files.{
  FileStatus, is_failed, is_updated, is_not_queued, file_status_eq, FileItem, pos,
}
use llm_wiki_engine.Ingest.Files.Selection.{Selection, apply_selection}
use llm_wiki_engine.Ingest.EnqueueTasks.{
  EnqueueStatus, running_task, succeeded_task, failed_task, EnqueueStage, preparing, checking,
  preparing_files, creating_jobs, enqueue_failed, copying, enqueued_files, EnqueueTask, Changes,
  no_changes, set_enqueue_task,
}

-- What the request raises: the details of the `HTTPException`s, and the text of another exception.
pub data Failure : Type 0 where
  project_not_found case_library invalid_selection bad_bulk_status nothing_selected : Failure
  source_not_found : Text → Failure
  other : Text → Failure

pub data Result (A : Type 0) : Type 0 where
  ok : A → Result A
  failure : Failure → Result A

-- The body of the request.
pub record EnqueueRequest : Type 0 where
  pub selection : Option Selection
  pub all : Bool
  pub status : Option FileStatus
  pub source_files : List Text

-- by_name.get(source_file): the last item of a name.
unfoldable pub by_name : Text → List FileItem → Option FileItem
by_name name [] = none
by_name name (i ∷ is) = elim (by_name name is) [
  | some j ↦ some j
  | none ↦ if i.source_file == name then some i else none
]

abbrev add_item : Text → Option FileItem → Result (List FileItem) → Result (List FileItem)
add_item name none rest = failure (source_not_found name)
add_item name (some i) (failure f) = failure f
add_item name (some i) (ok is) = ok (i ∷ is)

-- The named items; the first name that is missing is reported.
unfoldable pub named_items : List FileItem → List Text → Result (List FileItem)
named_items items [] = ok []
named_items items (n ∷ ns) = add_item n (by_name n items) (named_items items ns)

unfoldable pub bulk_items : List FileItem → Option FileStatus → Result (List FileItem)
bulk_items items none = failure bad_bulk_status
bulk_items items (some s) =
    if contains (is_updated ∷ is_not_queued ∷ []) s
    then ok (filter (λ i. i.status == s) items)
    else failure bad_bulk_status

abbrev pub or_invalid : Option (List FileItem) → Result (List FileItem)
or_invalid none = failure invalid_selection
or_invalid (some items) = ok items

-- `item.status in ("failed", "updated", "not_queued")`
abbrev pub is_eligible : FileItem → Bool
is_eligible i = contains (is_failed ∷ is_updated ∷ is_not_queued ∷ []) i.status

pub record EnqueueProject : Type 0 where
  pub disk_path : String
  pub is_case_library : Bool

-- What `stage_sources_for_ingest` does: the keys that it reports, and the staged paths or an error.
pub record Staging : Type 0 where
  pub reported : List Text
  pub result : Result (List String)

-- The parameters: the project's row, an error of its source context, its items or an error of the listing, the staging, the share
-- int((index / total) * 55), the ids, the case mapping, the globs, and the text of an error.
pub record Site : Type 0 where
  pub project : Option EnqueueProject
  pub source_context : Option Failure
  pub items : Result (List FileItem)
  pub stage_sources : List FileItem → Staging
  pub share : ℕ → ℕ → ℕ
  pub uuid4 : ℕ → String
  pub lower : Text → Text
  pub fnmatchcase : Text → Text → Bool
  pub error_text : Failure → Text

-- `_report` for a task.
abbrev pub report : String → EnqueueStage → ℕ → List EnqueueTask → List EnqueueTask
report task_id stage progress tasks =
    set_enqueue_task task_id
      (record no_changes {
        status = some running_task;
        stage = some stage;
        progress = some (pos progress);
      })
      tasks

-- The tables of the request: the tasks, and the queue.
abbrev pub Tables : Type 0
Tables = List EnqueueTask × IngestQueue

module _ (site : Site) (project_id : String) (user_id : ℕ) (task_id : String) where
  unfoldable pub select_items : EnqueueRequest → List FileItem → Result (List FileItem)
  select_items body items = elim body.selection [
    | some s ↦ or_invalid (apply_selection site.lower site.fnmatchcase items s)
    | none ↦
        if body.all
        then bulk_items items body.status
        else if is_nil body.source_files
        then failure nothing_selected
        else named_items items body.source_files
  ]

  -- The calls of `on_stage`, from an index on.
  unfoldable pub report_copies : ℕ → ℕ → List Text → List EnqueueTask → List EnqueueTask
  report_copies index total [] tasks = tasks
  report_copies index total (rel ∷ rels) tasks =
      report_copies (suc index) total rels
        (report task_id (copying index total rel) (20 + site.share index total) tasks)

  -- The jobs of the staged paths.
  unfoldable pub create_jobs :
      String → Result (List String) → Tables → Result (List String) × Tables
  create_jobs dir (failure f) t = (failure f, t)
  create_jobs dir (ok paths) (tasks, q) =
      let (ids, q1) = enqueue_many site.uuid4 project_id dir paths user_id q in
      (ok ids, (report task_id creating_jobs 85 tasks, q1))

  unfoldable pub stage_and_create : String → List FileItem → Tables → Result (List String) × Tables
  stage_and_create dir eligible (tasks, q) =
      let counted =
        set_enqueue_task task_id (record no_changes { file_count = some (length eligible) })
          tasks in
      let staging = site.stage_sources eligible in
      create_jobs dir staging.result (
        report_copies 1 (length eligible) staging.reported
            (report task_id preparing_files 18 counted),
        q,
      )

  unfoldable pub after_selection :
      String → Result (List FileItem) → Tables → Result (List String) × Tables
  after_selection dir (failure f) t = (failure f, t)
  after_selection dir (ok selected) t = stage_and_create dir (filter is_eligible selected) t

  unfoldable pub after_items :
      EnqueueRequest → String → Result (List FileItem) → Tables → Result (List String) × Tables
  after_items body dir (failure f) t = (failure f, t)
  after_items body dir (ok items) t = after_selection dir (select_items body items) t

  unfoldable pub in_context :
      EnqueueRequest → String → Option Failure → Tables → Result (List String) × Tables
  in_context body dir (some f) t = (failure f, t)
  in_context body dir none (tasks, q) =
      after_items body dir site.items (report task_id checking 10 tasks, q)

  unfoldable pub execute_in_project :
      EnqueueRequest → Option EnqueueProject → Tables → Result (List String) × Tables
  execute_in_project body none t = (failure project_not_found, t)
  execute_in_project body (some p) t =
      if p.is_case_library
      then (failure case_library, t)
      else in_context body p.disk_path site.source_context t

  unfoldable pub execute_ingest_enqueue : EnqueueRequest → Tables → Result (List String) × Tables
  execute_ingest_enqueue body t = execute_in_project body site.project t

  abbrev pub failed_changes : Failure → Changes
  failed_changes f = record no_changes {
    status = some failed_task;
    progress = some (pos 100);
    stage = some enqueue_failed;
    error = some (site.error_text f);
  }

  abbrev pub succeeded_changes : List String → Changes
  succeeded_changes ids = record no_changes {
    status = some succeeded_task;
    progress = some (pos 100);
    stage = some (enqueued_files (length ids));
    enqueued_count = some (length ids);
    job_ids = some ids;
  }

  -- The end of the try block, or its handlers.
  unfoldable pub finish_task : Result (List String) × Tables → Tables
  finish_task (ok ids, (tasks, q)) = (set_enqueue_task task_id (succeeded_changes ids) tasks, q)
  finish_task (failure f, (tasks, q)) = (set_enqueue_task task_id (failed_changes f) tasks, q)

  unfoldable pub run_enqueue_task : EnqueueRequest → Tables → Tables
  run_enqueue_task body (tasks, q) =
      finish_task (execute_ingest_enqueue body (report task_id preparing 5 tasks, q))
