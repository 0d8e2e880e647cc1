-- ===== src/Ingest/Queue/Enqueue/Laws.antt =====
-- What `enqueue_many` and `recover_interrupted_jobs` schedule.
use llm_wiki_engine.Prelude.{
  ℕ, suc, ◌+◌, String, ◌≡◌, ◌≢◌, refl, ap, ◌∙◌, Bool, true, false, Option, none, some, ◌⊎◌, List,
  [], ◌∷◌, ◌++◌, arith, inl, inr, Bool-cases, Option-cases, All, All-mp, All-filter_of, All-sort_by,
  length, contains, filter, ◌==◌, string_eq, eq_iff, if◌then◌else◌,
}
use llm_wiki_engine.Ingest.Queue.{
  Project, Task, put_task, status_eq, IngestJob, IngestQueue, find_project, is_scheduled,
  schedule_task, is_project_paused, task_of,
}
use llm_wiki_engine.Ingest.Queue.Control.{by_created, is_active}
use llm_wiki_engine.Ingest.Queue.Control.Pausing.{ids_of}
use llm_wiki_engine.Ingest.Queue.Control.Resuming.{is_scheduled-put_task, contains-sort_by}
use llm_wiki_engine.Ingest.Queue.Enqueue.{
  new_jobs, schedule_each, enqueue_many, interrupted_jobs, recovery_dir, recover_loop,
  recover_interrupted_jobs,
}

module _ (uuid4 : ℕ → String) where
  schedule_each_keeps :
      (k dir : String) (js : List IngestJob) (q : IngestQueue)
      → is_scheduled k q.tasks ≡ true
      → is_scheduled k (schedule_each uuid4 dir js q).tasks ≡ true
  unfolding schedule_each
  schedule_each_keeps k dir [] q h = h
  schedule_each_keeps k dir (j ∷ js) q h =
      schedule_each_keeps k dir js (schedule_task (task_of j dir 0) q)
        (rw is_scheduled-put_task (ground arith))

  schedule_each-All :
      (dir : String) (js : List IngestJob) (q : IngestQueue)
      → All (λ k. is_scheduled k (schedule_each uuid4 dir js q).tasks ≡ true) (ids_of js)
  unfolding schedule_each
  schedule_each-All dir [] q = tt
  schedule_each-All dir (j ∷ js) q = (
    schedule_each_keeps j.id dir js (schedule_task (task_of j dir 0) q)
        (rw is_scheduled-put_task (ground (arith, eq_iff j.id j.id))),
    schedule_each-All dir js (schedule_task (task_of j dir 0) q),
  )

  length-new_jobs :
      (p : String) (paths : List String) (user now n : ℕ)
      → length (new_jobs uuid4 p paths user now n) ≡ length paths
  unfolding new_jobs
  length-new_jobs p [] user now n = refl
  length-new_jobs p (x ∷ xs) user now n = ap suc (length-new_jobs p xs user now (suc n))

  length-ids_of : (js : List IngestJob) → length (ids_of js) ≡ length js
  length-ids_of [] = refl
  length-ids_of (j ∷ js) = ap suc (length-ids_of js)

  is_paused_of_rows :
      (p : String) (q : IngestQueue) (rows : List IngestJob) (n : ℕ)
      → is_project_paused p (record q { jobs = rows; drawn = n }) ≡ is_project_paused p q
  unfolding is_project_paused
  is_paused_of_rows p q rows n = refl

  unpaused_branch :
      (b : Bool) (ids : List String) (held run : IngestQueue)
      → b ≡ false
      → All (λ k. is_scheduled k run.tasks ≡ true) ids
      → All (λ k. is_scheduled k (if b then held else run).tasks ≡ true) ids
  unpaused_branch true ids held run e h = cc
  unpaused_branch false ids held run e h = h

  paused_branch :
      (b : Bool) (held run : IngestQueue) → b ≡ true → (if b then held else run).tasks ≡ held.tasks
  paused_branch true held run e = refl
  paused_branch false held run e = cc

  -- `enqueue_many` names one id for each path. Each id gets a task unless the project is paused,
  -- and while it is paused no task is added.
  pub enqueue_many_schedules :
      (p dir : String) (paths : List String) (user : ℕ) (q : IngestQueue)
      → let r = enqueue_many uuid4 p dir paths user q in
        (length r.0 ≡ length paths)
        × (is_project_paused p q ≡ false → All (λ k. is_scheduled k r.1.tasks ≡ true) r.0)
        × (is_project_paused p q ≡ true → r.1.tasks ≡ q.tasks)
  unfolding enqueue_many
  enqueue_many_schedules p dir [] user q = (refl, (λ _. tt), λ _. refl)
  enqueue_many_schedules p dir (x ∷ xs) user q = (
    length-ids_of rows ∙ length-new_jobs p (x ∷ xs) user q.clock q.drawn,
    (λ e.
        unpaused_branch (is_project_paused p q1) (ids_of rows) q1 (schedule_each uuid4 dir rows q1)
          (is_paused_of_rows p q q1.jobs q1.drawn ∙ e) (schedule_each-All dir rows q1)),
    λ e.
        paused_branch (is_project_paused p q1) q1 (schedule_each uuid4 dir rows q1)
          (is_paused_of_rows p q q1.jobs q1.drawn ∙ e),
  )
    where
      rows : List IngestJob
      rows = new_jobs uuid4 p (x ∷ xs) user q.clock q.drawn

      q1 : IngestQueue
      q1 = record q { jobs = q.jobs ++ rows; drawn = q.drawn + length (x ∷ xs) }

recover_keeps :
    (k : String) (js : List IngestJob) (q : IngestQueue)
    → is_scheduled k q.tasks ≡ true
    → is_scheduled k (recover_loop js q).1.tasks ≡ true
unfolding recover_loop
recover_keeps k [] q h = h
recover_keeps k (j ∷ js) q h =
    elim (Option-cases (recovery_dir (find_project j.project_id q.projects))) [
      | inl e ↦ rw (e, recover_loop) (recover_keeps k js q h)
      | inr (dir, e) ↦
          rw (e, recover_loop)
            (recover_keeps k js (schedule_task (task_of j dir j.step) q)
              (rw is_scheduled-put_task (ground arith)))
    ]

-- The project of the job is there, has a directory and is not paused.
pub record Recoverable (q : IngestQueue) (j : IngestJob) : Type 0 where
  pub project : Project
  pub there : find_project j.project_id q.projects ≡ some project
  pub has_dir : (project.disk_path == "") ≡ false
  pub unpaused : project.ingest_paused ≡ false

-- The project of the job is gone, or has no directory, or is paused.
abbrev pub Unrecoverable : IngestQueue → IngestJob → Type 0
Unrecoverable q j =
    (find_project j.project_id q.projects ≡ none)
    ⊎ ((p : Project) × (find_project j.project_id q.projects ≡ some p)
        × (((p.disk_path == "") ≡ true) ⊎ (p.ingest_paused ≡ true)))

recovery_dir-Recoverable :
    (q : IngestQueue) (j : IngestJob)
    → Recoverable q j
    → recovery_dir (find_project j.project_id q.projects) ≢ none
unfolding recovery_dir
recovery_dir-Recoverable q j r h =
    absurd (ground (arith, rw (r.there, recovery_dir, r.has_dir, r.unpaused) at h))

recovery_dir-Unrecoverable :
    (q : IngestQueue) (j : IngestJob)
    → Unrecoverable q j
    → recovery_dir (find_project j.project_id q.projects) ≡ none
unfolding recovery_dir
recovery_dir-Unrecoverable q j (inl h) = rw (h, recovery_dir) refl
recovery_dir-Unrecoverable q j (inr (p, h, inl k)) = rw (h, recovery_dir, k) refl
recovery_dir-Unrecoverable q j (inr (p, h, inr k)) = rw (h, recovery_dir, k) (ground arith)

-- The task of a job.
abbrev pub find_task : String → List Task → Option Task
find_task k [] = none
find_task k (t ∷ ts) = if t.job_id == k then some t else find_task k ts

find_task-put_task_other :
    (k : String) (t : Task) (ts : List Task)
    → (t.job_id == k) ≡ false
    → find_task k (put_task t ts) ≡ find_task k ts
unfolding put_task
find_task-put_task_other k t [] h = rw h refl
find_task-put_task_other k t (u ∷ us) h = ground (
  arith,
  find_task-put_task_other k t us h,
  eq_iff u.job_id t.job_id,
  eq_iff u.job_id k,
  eq_iff t.job_id k,
)

recover_schedules_listed :
    (k : String) (js : List IngestJob) (q : IngestQueue)
    → All (λ j. j.id ≡ k → recovery_dir (find_project j.project_id q.projects) ≢ none) js
    → contains (ids_of js) k ≡ true
    → is_scheduled k (recover_loop js q).1.tasks ≡ true
unfolding recover_loop
recover_schedules_listed k [] q r h = cc
recover_schedules_listed k (j ∷ js) q r h =
    elim (Option-cases (recovery_dir (find_project j.project_id q.projects))) [
      | inl e ↦
          rw (e, recover_loop)
            (recover_schedules_listed k js q r.1 (ground (arith, eq_iff j.id k, r.0)))
      | inr (dir, e) ↦
          rw (e, recover_loop)
            (elim (Bool-cases (j.id == k)) [
              | inl same ↦
                  recover_keeps k js (schedule_task (task_of j dir j.step) q)
                    (rw is_scheduled-put_task (ground arith))
              | inr other ↦
                  recover_schedules_listed k js (schedule_task (task_of j dir j.step) q) r.1
                    (ground arith)
            ])
    ]

contains-filter_active :
    (js : List IngestJob)
    → All
        (λ j.
          is_active j.status ≡ true
          → contains (ids_of (filter (λ i. is_active i.status) js)) j.id ≡ true)
        js
contains-filter_active [] = tt
contains-filter_active (j ∷ js) = (
  λ a. ground (arith, eq_iff j.id j.id),
  All-mp _ _ js (λ r f a. ground (arith, f a)) (contains-filter_active js),
)

recover_skips :
    (k : String) (js : List IngestJob) (q : IngestQueue)
    → All (λ j. j.id ≡ k → recovery_dir (find_project j.project_id q.projects) ≡ none) js
    → find_task k (recover_loop js q).1.tasks ≡ find_task k q.tasks
unfolding recover_loop schedule_task
recover_skips k [] q h = refl
recover_skips k (j ∷ js) q h =
    elim (Option-cases (recovery_dir (find_project j.project_id q.projects))) [
      | inl e ↦ rw (e, recover_loop) (recover_skips k js q h.1)
      | inr (dir, e) ↦
          rw (e, recover_loop)
            (recover_skips k js (schedule_task (task_of j dir j.step) q) h.1
              ∙ find_task-put_task_other k (task_of j dir j.step) q.tasks
                  (elim (Bool-cases (j.id == k)) [
                    | inl same ↦ cc (e, h.0 ((eq_iff j.id k).0 same))
                    | inr other ↦ other
                  ]))
    ]

All-interrupted_jobs :
    (P : IngestJob → Type 0) (q : IngestQueue) → All P q.jobs → All P (interrupted_jobs q)
unfolding interrupted_jobs
All-interrupted_jobs P q h = All-sort_by by_created P _ (All-filter_of P _ q.jobs h)

-- At a restart, take the rows with one id. If the project of each is there, has a directory and
-- is not paused, a pending or processing row among them has a task after the recovery. If the
-- project of each is gone, has no directory or is paused, the task of this id, if there is one, is
-- the same as before.
pub recover_interrupted_jobs_exact :
    (k : String) (q : IngestQueue)
    → (All (λ i. i.id ≡ k → Recoverable q i) q.jobs
        → All
            (λ j.
              is_active j.status ≡ true
              → j.id ≡ k
              → is_scheduled k (recover_interrupted_jobs q).1.tasks ≡ true)
            q.jobs)
      × (All (λ i. i.id ≡ k → Unrecoverable q i) q.jobs
          → find_task k (recover_interrupted_jobs q).1.tasks ≡ find_task k q.tasks)
unfolding recover_interrupted_jobs
recover_interrupted_jobs_exact k q = (
  (λ h.
      All-mp _ _ q.jobs
        (λ j f a e.
          recover_schedules_listed k (interrupted_jobs q) q
            (All-interrupted_jobs _ q
              (All-mp _ _ q.jobs (λ i r d. recovery_dir-Recoverable q i (r d)) h))
            (rw (← e) (unfold interrupted_jobs in rw contains-sort_by (f a))))
        (contains-filter_active q.jobs)),
  λ h. recover_skips k (interrupted_jobs q) q (
      All-interrupted_jobs _ q
        (All-mp _ _ q.jobs (λ i r d. recovery_dir-Unrecoverable q i (r d)) h)),
)
