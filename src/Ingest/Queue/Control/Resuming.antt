-- ===== src/Ingest/Queue/Control/Resuming.antt =====
-- What `resume_project` schedules.
use llm_wiki_engine.Prelude.{
  String, ◌≡◌, refl, ◌∙◌, true, false, ◌&&◌, some, List, [], ◌∷◌, arith, inl, inr, Bool-cases,
  Option-cases, All, All-mp, contains, insert_by, sort_by, ◌==◌, string_eq, eq_iff, if◌then◌else◌,
}
use llm_wiki_engine.Ingest.Queue.{
  pending, status_eq, IngestJob, IngestQueue, Project, Task, find_project, flag_rows, put_task,
  is_scheduled, set_project_paused, is_project_paused, task_of,
}
use llm_wiki_engine.Ingest.Queue.Control.{
  count_calls, select_jobs, get_pending_jobs, schedule_pending, resume_project, by_created,
}
use llm_wiki_engine.Ingest.Queue.Control.Pausing.{ids_of}

pub is_scheduled-put_task :
    (k : String) (t : Task) (ts : List Task)
    → is_scheduled k (put_task t ts) ≡ (if t.job_id == k then true else is_scheduled k ts)
unfolding is_scheduled put_task
is_scheduled-put_task k t [] = ground arith
is_scheduled-put_task k t (u ∷ us) = ground (
  arith,
  is_scheduled-put_task k t us,
  eq_iff u.job_id t.job_id,
  eq_iff u.job_id k,
  eq_iff t.job_id k,
)

module _ (p dir : String) where
  schedule_pending_keeps :
      (k : String) (j : IngestJob) (q : IngestQueue)
      → is_scheduled k q.tasks ≡ true
      → is_scheduled k (schedule_pending p dir j q).1.tasks ≡ true
  unfolding schedule_pending
  schedule_pending_keeps k j q h =
      ground
        (arith, is_scheduled-put_task k (record (task_of j dir j.step) { project_id = p }) q.tasks)

  schedule_pending_self :
      (j : IngestJob) (q : IngestQueue)
      → is_scheduled j.id (schedule_pending p dir j q).1.tasks ≡ true
  unfolding schedule_pending
  schedule_pending_self j q = ground (
    arith,
    eq_iff j.id j.id,
    is_scheduled-put_task j.id (record (task_of j dir j.step) { project_id = p }) q.tasks,
  )

  loop_keeps :
      (k : String) (sel : List IngestJob) (q : IngestQueue)
      → is_scheduled k q.tasks ≡ true
      → is_scheduled k (count_calls (schedule_pending p dir) sel q).1.tasks ≡ true
  unfolding count_calls
  loop_keeps k [] q h = h
  loop_keeps k (s ∷ sel) q h =
      loop_keeps k sel (schedule_pending p dir s q).1 (schedule_pending_keeps k s q h)

  loop_schedules :
      (k : String) (sel : List IngestJob) (q : IngestQueue)
      → contains (ids_of sel) k ≡ true
      → is_scheduled k (count_calls (schedule_pending p dir) sel q).1.tasks ≡ true
  unfolding count_calls
  loop_schedules k [] q h = cc
  loop_schedules k (s ∷ sel) q h = elim (Bool-cases (s.id == k)) [
    | inl e ↦
        loop_keeps k sel (schedule_pending p dir s q).1
          (rw (← (eq_iff s.id k).0 e) (schedule_pending_self s q))
    | inr n ↦ loop_schedules k sel (schedule_pending p dir s q).1 (ground arith)
  ]

  loop_keeps_projects :
      (sel : List IngestJob) (q : IngestQueue)
      → (count_calls (schedule_pending p dir) sel q).1.projects ≡ q.projects
  unfolding count_calls schedule_pending
  loop_keeps_projects [] q = refl
  loop_keeps_projects (s ∷ sel) q =
      loop_keeps_projects sel (schedule_pending p dir s q).1 ∙ ground arith

  loop_keeps_jobs :
      (sel : List IngestJob) (q : IngestQueue)
      → (count_calls (schedule_pending p dir) sel q).1.jobs ≡ q.jobs
  unfolding count_calls schedule_pending
  loop_keeps_jobs [] q = refl
  loop_keeps_jobs (s ∷ sel) q = loop_keeps_jobs sel (schedule_pending p dir s q).1 ∙ ground arith

contains-insert_by :
    (k : String) (j : IngestJob) (js : List IngestJob)
    → contains (ids_of (insert_by by_created j js)) k ≡ contains (ids_of (j ∷ js)) k
unfolding insert_by
contains-insert_by k j [] = refl
contains-insert_by k j (i ∷ js) = ground (arith, contains-insert_by k j js)

pub contains-sort_by :
    (k : String) (js : List IngestJob)
    → contains (ids_of (sort_by by_created js)) k ≡ contains (ids_of js) k
unfolding sort_by
contains-sort_by k [] = refl
contains-sort_by k (j ∷ js) =
    contains-insert_by k j (sort_by by_created js) ∙ ground (arith, contains-sort_by k js)

-- A row of the project that waits for a worker.
abbrev pub Waits : String → IngestJob → Type 0
Waits p j = (j.project_id == p && contains (pending ∷ []) j.status) ≡ true

waiting_selected :
    (p : String) (js : List IngestJob)
    → All (λ j. Waits p j → contains (ids_of (select_jobs p (pending ∷ []) js)) j.id ≡ true) js
unfolding select_jobs
waiting_selected p [] = tt
waiting_selected p (j ∷ js) = (
  λ a. ground (arith, eq_iff j.id j.id),
  All-mp _ _ js (λ r f a. ground (arith, f a)) (waiting_selected p js),
)

unpaused :
    (p : String) (ps : List Project) (r : Project)
    → find_project p (flag_rows p false ps) ≡ some r
    → r.ingest_paused ≡ false
unfolding find_project flag_rows
unpaused p [] r h = cc
unpaused p (x ∷ ps) r h = ground (arith, unpaused p ps r)

-- After `resume_project` every pending job of the project has a task.
pub resume_project_schedules :
    (p dir : String) (q : IngestQueue)
    → All
        (λ j. Waits p j → is_scheduled j.id (resume_project p dir q).1.tasks ≡ true)
        (resume_project p dir q).1.jobs
unfolding resume_project
resume_project_schedules p dir q = rw (loop_keeps_jobs p dir) (
    All-mp _ _ q.jobs
      (λ j f a. loop_schedules p dir j.id (get_pending_jobs p q1) q1 (rw contains-sort_by (f a)))
      (waiting_selected p q.jobs))
  where
    q1 : IngestQueue
    q1 = set_project_paused p false q

-- After `resume_project` the project is not paused.
is_project_paused-resume_project :
    (p dir : String) (q : IngestQueue) → is_project_paused p (resume_project p dir q).1 ≡ false
unfolding resume_project is_project_paused
is_project_paused-resume_project p dir q =
    rw (loop_keeps_projects p dir, is_project_paused)
      (elim (Option-cases (find_project p (flag_rows p false q.projects))) [
        | inl e ↦ rw (e, is_project_paused)
        | inr (r, e) ↦ rw (e, is_project_paused) (unpaused p q.projects r e)
      ])
