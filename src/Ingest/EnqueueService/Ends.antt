-- ===== src/Ingest/EnqueueService/Ends.antt =====
-- How a request to enqueue ends.
use llm_wiki_engine.Prelude.{
  All, filter, ℕ, suc, String, ◌≡◌, refl, ap, ◌∙◌, Bool, true, false, Option, none, some, List, [],
  ◌∷◌, length, ◌==◌, string_eq, eq_iff, if◌then◌else◌, Bool-cases, inl, inr, arith,
}
use llm_wiki_engine.Text.{Text}
use llm_wiki_engine.Ingest.Queue.{IngestQueue, is_scheduled, is_project_paused}
use llm_wiki_engine.Ingest.Queue.Enqueue.Laws.{enqueue_many_schedules}
use llm_wiki_engine.Ingest.Queue.Enqueue.Rows.{Inserted, enqueue_many-Inserted}
use llm_wiki_engine.Ingest.Files.{FileItem}
use llm_wiki_engine.Ingest.EnqueueTasks.{
  preparing, succeeded_task, failed_task, EnqueueTask, Changes, change_task, get_enqueue_task,
  set_enqueue_task,
}
use llm_wiki_engine.Ingest.EnqueueService.{
  report, select_items, is_eligible, Failure, Result, ok, failure, EnqueueRequest, EnqueueProject,
  Site, Tables, report_copies, create_jobs, stage_and_create, after_selection, after_items,
  in_context, execute_in_project, execute_ingest_enqueue, failed_changes, succeeded_changes,
  finish_task, run_enqueue_task, case_library, project_not_found,
}

get_enqueue_task-set_enqueue_task :
    (task_id : String) (c : Changes) (ts : List EnqueueTask) (t : EnqueueTask)
    → get_enqueue_task task_id ts ≡ some t
    → get_enqueue_task task_id (set_enqueue_task task_id c ts) ≡ some (change_task c t)
unfolding get_enqueue_task set_enqueue_task
get_enqueue_task-set_enqueue_task task_id c [] t h = absurd (ground (arith, h))
get_enqueue_task-set_enqueue_task task_id c (u ∷ us) t h =
    elim (Bool-cases (u.task_id == task_id)) [
      | inl e ↦
          let same : u ≡ t = ground (arith, e, h) in
          rw (e, e) (ap (λ x. some (change_task c x)) same)
      | inr e ↦ rw (e, e) (get_enqueue_task-set_enqueue_task task_id c us t (ground (arith, e, h)))
    ]

get_enqueue_task-set_enqueue_task_other :
    (task_id other : String) (c : Changes) (ts : List EnqueueTask)
    → (task_id == other) ≡ false
    → get_enqueue_task other (set_enqueue_task task_id c ts) ≡ get_enqueue_task other ts
unfolding get_enqueue_task set_enqueue_task
get_enqueue_task-set_enqueue_task_other task_id other c [] h = refl
get_enqueue_task-set_enqueue_task_other task_id other c (u ∷ us) h =
    elim (Bool-cases (u.task_id == task_id)) [
      | inl e ↦
          let apart : (u.task_id == other) ≡ false =
            ap (λ x. x == other) ((eq_iff u.task_id task_id).0 e) ∙ h in
          rw (e, apart) refl
      | inr e ↦ elim (Bool-cases (u.task_id == other)) [
        | inl q ↦ rw (e, q) refl
        | inr q ↦ rw (e, q) (get_enqueue_task-set_enqueue_task_other task_id other c us h)
      ]
    ]

-- The task is still there, and no other task changed.
pub record OnlyTouches (task_id : String) (before after : List EnqueueTask) : Type 0 where
  pub present :
      (t : EnqueueTask)
      → get_enqueue_task task_id before ≡ some t
      → (u : EnqueueTask) × (get_enqueue_task task_id after ≡ some u)
  pub others :
      (o : String) → (task_id == o) ≡ false → get_enqueue_task o after ≡ get_enqueue_task o before

OnlyTouches-refl : (task_id : String) (ts : List EnqueueTask) → OnlyTouches task_id ts ts
OnlyTouches-refl task_id ts = record { present = λ t h. (t, h); others = λ o h. refl }

OnlyTouches-trans :
    (task_id : String) (a b c : List EnqueueTask)
    → OnlyTouches task_id a b
    → OnlyTouches task_id b c
    → OnlyTouches task_id a c
OnlyTouches-trans task_id a b c h k = record {
  present = λ t e. let (u, f) = h.present t e in k.present u f;
  others = λ o e. k.others o e ∙ h.others o e;
}

OnlyTouches-set :
    (task_id : String) (c : Changes) (ts : List EnqueueTask)
    → OnlyTouches task_id ts (set_enqueue_task task_id c ts)
OnlyTouches-set task_id c ts = record {
  present = λ t h. (change_task c t, get_enqueue_task-set_enqueue_task task_id c ts t h);
  others = λ o h. get_enqueue_task-set_enqueue_task_other task_id o c ts h;
}

module _ (site : Site) (project_id : String) (user_id : ℕ) (task_id : String) where
  abbrev Touches : List EnqueueTask → List EnqueueTask → Type 0
  Touches = OnlyTouches task_id

  -- What a request asks for, for which the staging gave these paths: the files that it selects and
  -- that may be compiled.
  pub record Staged (body : EnqueueRequest) (paths : List String) : Type 0 where
    pub project : EnqueueProject
    pub found : site.project ≡ some project
    pub items : List FileItem
    pub listed : site.items ≡ ok items
    pub selected : List FileItem
    pub chosen : select_items site project_id user_id task_id body items ≡ ok selected
    pub staged : (site.stage_sources (filter is_eligible selected)).result ≡ ok paths

  -- The ids are those of the new rows of the queue, one for each staged path; each has a task unless
  -- the project is paused, and while it is paused the tasks are as before.
  pub record Enqueued (body : EnqueueRequest) (q : IngestQueue) (ids : List String)
      (q1 : IngestQueue) : Type 0 where
    pub paths : List String
    pub staging : Staged body paths
    pub rows : Inserted project_id paths user_id q ids q1
    pub scheduled :
        is_project_paused project_id q ≡ false → All (λ k. is_scheduled k q1.tasks ≡ true) ids
    pub held : is_project_paused project_id q ≡ true → q1.tasks ≡ q.tasks

  -- A request from some tables: a failure leaves the queue alone, and success made the jobs.
  abbrev Goes : EnqueueRequest → Tables → Result (List String) × Tables → Type 0
  Goes body t (failure f, u) = Touches t.0 u.0 × (u.1 ≡ t.1)
  Goes body t (ok ids, u) = Touches t.0 u.0 × Enqueued body t.1 ids u.1

  Goes-after :
      (body : EnqueueRequest) (a b : List EnqueueTask) (q : IngestQueue)
      (r : Result (List String) × Tables)
      → Touches a b
      → Goes body (b, q) r
      → Goes body (a, q) r
  Goes-after body a b q (failure f, u) h k = (OnlyTouches-trans task_id a b u.0 h k.0, k.1)
  Goes-after body a b q (ok ids, u) h k = (OnlyTouches-trans task_id a b u.0 h k.0, k.1)

  Goes-failure : (body : EnqueueRequest) (f : Failure) (t : Tables) → Goes body t (failure f, t)
  Goes-failure body f t = (OnlyTouches-refl task_id t.0, refl)

  create_jobs-Goes :
      (body : EnqueueRequest) (dir : String) (r : Result (List String)) (t : Tables)
      → ((paths : List String) → r ≡ ok paths → Staged body paths)
      → Goes body t (create_jobs site project_id user_id task_id dir r t)
  unfolding create_jobs
  create_jobs-Goes body dir (failure f) t h = Goes-failure body f t
  create_jobs-Goes body dir (ok paths) (tasks, q) h = (
    OnlyTouches-set task_id _ tasks,
    record {
      paths = paths;
      staging = h paths refl;
      rows = enqueue_many-Inserted site.uuid4 project_id dir paths user_id q;
      scheduled = (enqueue_many_schedules site.uuid4 project_id dir paths user_id q).1;
      held = (enqueue_many_schedules site.uuid4 project_id dir paths user_id q).2;
    },
  )

  report_copies-Touches :
      (index total : ℕ) (rels : List Text) (tasks : List EnqueueTask)
      → Touches tasks (report_copies site project_id user_id task_id index total rels tasks)
  unfolding report_copies
  report_copies-Touches index total [] tasks = OnlyTouches-refl task_id tasks
  report_copies-Touches index total (rel ∷ rels) tasks =
      OnlyTouches-trans task_id tasks _ _ (OnlyTouches-set task_id _ tasks)
        (report_copies-Touches (suc index) total rels _)

  stage_and_create-Goes :
      (body : EnqueueRequest) (dir : String) (eligible : List FileItem) (t : Tables)
      → ((paths : List String)
          → (site.stage_sources eligible).result ≡ ok paths
          → Staged body paths)
      → Goes body t (stage_and_create site project_id user_id task_id dir eligible t)
  unfolding stage_and_create
  stage_and_create-Goes body dir eligible (tasks, q) h =
      Goes-after body tasks _ q _
        (OnlyTouches-trans task_id tasks _ _ (OnlyTouches-set task_id _ tasks) (
          OnlyTouches-trans task_id _ _ _ (OnlyTouches-set task_id _ _)
            (report_copies-Touches 1 (length eligible) (site.stage_sources eligible).reported _)))
        (create_jobs-Goes body dir _ _ h)

  after_selection-Goes :
      (body : EnqueueRequest) (p : EnqueueProject) (items : List FileItem)
      (selected : Result (List FileItem)) (t : Tables)
      → site.project ≡ some p
      → site.items ≡ ok items
      → select_items site project_id user_id task_id body items ≡ selected
      → Goes body t (after_selection site project_id user_id task_id p.disk_path selected t)
  unfolding after_selection
  after_selection-Goes body p items (failure f) t e g h = Goes-failure body f t
  after_selection-Goes body p items (ok selected) t e g h =
      stage_and_create-Goes body p.disk_path (filter is_eligible selected) t (λ paths k. record {
        project = p;
        found = e;
        items = items;
        listed = g;
        selected = selected;
        chosen = h;
        staged = k;
      })

  after_items-Goes :
      (body : EnqueueRequest) (p : EnqueueProject) (items : Result (List FileItem)) (t : Tables)
      → site.project ≡ some p
      → site.items ≡ items
      → Goes body t (after_items site project_id user_id task_id body p.disk_path items t)
  unfolding after_items
  after_items-Goes body p (failure f) t e g = Goes-failure body f t
  after_items-Goes body p (ok items) t e g = after_selection-Goes body p items _ t e g refl

  in_context-Goes :
      (body : EnqueueRequest) (p : EnqueueProject) (f : Option Failure) (t : Tables)
      → site.project ≡ some p
      → Goes body t (in_context site project_id user_id task_id body p.disk_path f t)
  unfolding in_context
  in_context-Goes body p (some f) t e = Goes-failure body f t
  in_context-Goes body p none (tasks, q) e =
      Goes-after body tasks _ q _ (OnlyTouches-set task_id _ tasks)
        (after_items-Goes body p site.items _ e refl)

  Goes-if :
      (body : EnqueueRequest) (b : Bool) (t : Tables) (x y : Result (List String) × Tables)
      → Goes body t x
      → Goes body t y
      → Goes body t (if b then x else y)
  Goes-if body true t x y h k = h
  Goes-if body false t x y h k = k

  execute-Goes :
      (body : EnqueueRequest) (p : Option EnqueueProject) (t : Tables)
      → site.project ≡ p
      → Goes body t (execute_in_project site project_id user_id task_id body p t)
  unfolding execute_in_project
  execute-Goes body none t e = Goes-failure body project_not_found t
  execute-Goes body (some p) t e =
      Goes-if body p.is_case_library t (failure case_library, t) _
        (Goes-failure body case_library t) (in_context-Goes body p site.source_context t e)

  -- How a task that ran shows its end, with what the request did, and the queue before and after.
  abbrev pub Finished :
      EnqueueRequest → Result (List String) → IngestQueue → EnqueueTask → IngestQueue → Type 0
  Finished body (ok ids) q t q1 =
      (t.status ≡ succeeded_task)
      × (t.job_ids ≡ ids)
      × (t.enqueued_count ≡ length ids)
      × Enqueued body q ids q1
  Finished body (failure f) q t q1 =
      (t.status ≡ failed_task) × (t.error ≡ site.error_text f) × (q1 ≡ q)

  finish_task-Finished :
      (body : EnqueueRequest) (before : Tables) (r : Result (List String) × Tables)
      (t : EnqueueTask)
      → Goes body before r
      → get_enqueue_task task_id before.0 ≡ some t
      → let after = finish_task site project_id user_id task_id r in
        ((u : EnqueueTask) × (get_enqueue_task task_id after.0 ≡ some u)
          × (u.progress ≡ 100)
          × Finished body r.0 before.1 u after.1)
        × ((o : String)
            → (task_id == o) ≡ false
            → get_enqueue_task o after.0 ≡ get_enqueue_task o before.0)
  unfolding finish_task
  finish_task-Finished body before (ok ids, (tasks, q)) t h e =
      let (u, f) = h.0.present t e in
      (
        (
          change_task (succeeded_changes site project_id user_id task_id ids) u,
          get_enqueue_task-set_enqueue_task task_id _ tasks u f,
          refl,
          (refl, refl, refl, h.1),
        ),
        λ o k. get_enqueue_task-set_enqueue_task_other task_id o _ tasks k ∙ h.0.others o k,
      )
  finish_task-Finished body before (failure f, (tasks, q)) t h e =
      let (u, g) = h.0.present t e in
      (
        (
          change_task (failed_changes site project_id user_id task_id f) u,
          get_enqueue_task-set_enqueue_task task_id _ tasks u g,
          refl,
          (refl, refl, h.1),
        ),
        λ o k. get_enqueue_task-set_enqueue_task_other task_id o _ tasks k ∙ h.0.others o k,
      )

  -- The answer of the request that a task runs.
  abbrev pub answer_of : EnqueueRequest → Tables → Result (List String)
  answer_of body (tasks, q) =
      (execute_ingest_enqueue site project_id user_id task_id body
        (report task_id preparing 5 tasks, q)).0

  -- A request to enqueue whose task was created always ends that task, with full progress. If the
  -- request is answered with ids, the task succeeded and lists them, with their number; they name the
  -- rows that the queue has more than before, pending, of the project and the user, one for each
  -- path that the staging gave for the selected files that may be compiled, in order; and each has a
  -- task, unless the project is paused, which adds none. If the request raises, the task failed with
  -- the text of that failure, and the queue is as it was. No other task changes.
  pub run_enqueue_task-Finished :
      (body : EnqueueRequest) (tasks : List EnqueueTask) (q : IngestQueue) (t : EnqueueTask)
      → get_enqueue_task task_id tasks ≡ some t
      → let after = run_enqueue_task site project_id user_id task_id body (tasks, q) in
        ((u : EnqueueTask) × (get_enqueue_task task_id after.0 ≡ some u)
          × (u.progress ≡ 100)
          × Finished body (answer_of body (tasks, q)) q u after.1)
        × ((o : String)
            → (task_id == o) ≡ false
            → get_enqueue_task o after.0 ≡ get_enqueue_task o tasks)
  unfolding run_enqueue_task execute_ingest_enqueue
  run_enqueue_task-Finished body tasks q t e =
      finish_task-Finished body (tasks, q) _ t
        (Goes-after body tasks _ q _ (OnlyTouches-set task_id _ tasks)
          (execute-Goes body site.project _ refl))
        e
