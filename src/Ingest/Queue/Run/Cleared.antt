-- ===== src/Ingest/Queue/Run/Cleared.antt =====
-- app/ingest/queue.py: the run of a job whose row was deleted under it.
use llm_wiki_engine.Prelude.{
  ℕ, zero, suc, String, ◌≡◌, refl, ◌∙◌, Bool, true, false, not, ◌&&◌, Option, none, some, List, [],
  ◌∷◌, arith, Distinct, contains, filter, ◌==◌, string_eq, eq_iff,
}
use llm_wiki_engine.Ingest.Queue.{
  pending, processing, paused, status_eq, IngestJob, IngestQueue, find_job, update_rows, get_job,
  update_job, set_project_paused,
}
use llm_wiki_engine.Ingest.Queue.Control.{
  count_calls, pause_job, select_jobs, pause_project, delete_waiting_jobs,
}
use llm_wiki_engine.Ingest.Queue.Control.Pausing.{ids_of}
use llm_wiki_engine.Ingest.Queue.Control.Others.{
  absent_of_filter, dropped_absent, find_job_absent, pause_loop_other,
}
use llm_wiki_engine.Ingest.Queue.Run.{
  Outcome, raised, start_values, retry_values, after_ingest, attempt, settle_error, settle, execute,
}

find_job-update_rows-none :
    (k m : String) (f : IngestJob → IngestJob) (js : List IngestJob)
    → ((r : IngestJob) → (f r).id ≡ r.id)
    → find_job k js ≡ none
    → find_job k (update_rows m f js) ≡ none
unfolding find_job update_rows
find_job-update_rows-none k m f [] same h = refl
find_job-update_rows-none k m f (r ∷ js) same h =
    ground (arith, same r, find_job-update_rows-none k m f js same)

module _ (auto_ingest : ℕ → IngestQueue → Outcome × IngestQueue)
    (publish : IngestQueue → Option String × IngestQueue) (k error : String)
    (fails : (s : ℕ) (q : IngestQueue) → (auto_ingest s q).0 ≡ raised error)
    (stays_gone : (s : ℕ) (q : IngestQueue)
      → get_job k q ≡ none
      → get_job k (auto_ingest s q).1 ≡ none) where
  after_ingest_raised :
      (o : Outcome) (q : IngestQueue)
      → o ≡ raised error
      → after_ingest auto_ingest publish k (o, q) ≡ (raised error, q)
  unfolding after_ingest
  after_ingest_raised o q h = rw h

  attempt_raised :
      (s : ℕ) (q : IngestQueue)
      → attempt auto_ingest publish k s q
        ≡ (raised error, (auto_ingest s (update_job k start_values q)).1)
  unfolding attempt
  attempt_raised s q = after_ingest_raised _ _ (fails s (update_job k start_values q))

  -- If the row of a running job is gone and every attempt raises, `_execute` calls itself without
  -- end: it has no result for any number of calls, although the retries are meant to be bounded.
  pub execute_of_deleted_row :
      (fuel s : ℕ) (q : IngestQueue)
      → get_job k q ≡ none
      → execute auto_ingest publish fuel k s q ≡ none
  unfolding execute settle settle_error get_job update_job
  execute_of_deleted_row zero s q h = refl
  execute_of_deleted_row (suc fuel) s q h =
      rw (attempt_raised, settle)
        (rw (gone, settle_error)
          (execute_of_deleted_row fuel 0 (update_job k (retry_values 0 error) q1)
            (find_job-update_rows-none k k (retry_values 0 error) q1.jobs (λ r. refl) gone)))
    where
      q1 : IngestQueue
      q1 = (auto_ingest s (update_job k start_values q)).1

      gone : get_job k q1 ≡ none
      gone = stays_gone s _ (find_job-update_rows-none k k start_values q.jobs (λ r. refl) h)

tasks-pause_job : (k : String) (q : IngestQueue) → (pause_job k q).1.tasks ≡ q.tasks
unfolding pause_job
tasks-pause_job k q = ground arith

tasks-pause_loop :
    (sel : List IngestJob) (q : IngestQueue)
    → (count_calls (λ job. pause_job job.id) sel q).1.tasks ≡ q.tasks
unfolding count_calls
tasks-pause_loop [] q = refl
tasks-pause_loop (s ∷ sel) q = tasks-pause_loop sel (pause_job s.id q).1 ∙ tasks-pause_job s.id q

-- `pause_project` deletes the row of a paused job of the project, and leaves its task scheduled.
pub pause_project_orphans :
    (p k : String) (q : IngestQueue) (job : IngestJob)
    → Distinct (ids_of q.jobs)
    → get_job k q ≡ some job
    → job.project_id ≡ p
    → job.status ≡ paused
    → (get_job k (pause_project p q).2 ≡ none) × ((pause_project p q).2.tasks ≡ q.tasks)
unfolding pause_project get_job
pause_project_orphans p k q job u e own stopped = (
  pause_loop_other k _ _ (absent_of_filter _ k _ absent) ∙ find_job_absent k _ absent,
  tasks-pause_loop (select_jobs p (processing ∷ []) q1.jobs) q1,
)
  where
    q1 : IngestQueue
    q1 = (delete_waiting_jobs p (set_project_paused p true q)).1

    keep : IngestJob → Bool
    keep j = not (j.project_id == p && contains (pending ∷ paused ∷ []) j.status)

    absent : contains (ids_of (filter keep q.jobs)) k ≡ false
    absent = dropped_absent keep k q.jobs job u e (ground (arith, eq_iff job.project_id p))
