-- ===== src/Tests/Queue.antt =====
-- app/ingest/queue.py on a small job table.
use llm_wiki_engine.Prelude.{
  ℕ, String, ◌≡◌, refl, true, false, Option, none, some, [], ◌∷◌, length, Distinct, All, string_eq,
}
use llm_wiki_engine.Ingest.Queue.{
  JobStatus, pending, processing, paused, status_eq, queued, IngestJob, IngestQueue, find_job,
  get_job, is_scheduled, is_project_paused, status_eq,
}
use llm_wiki_engine.Ingest.Queue.Control.{pause_project, resume_project, is_active}
use llm_wiki_engine.Ingest.Queue.Control.Pausing.{ids_of, IsQuiet, pause_project-IsQuiet}
use llm_wiki_engine.Ingest.Queue.Control.Others.{get_job-pause_project_other}
use llm_wiki_engine.Ingest.Queue.Control.Resuming.{Waits, resume_project_schedules}
use llm_wiki_engine.Ingest.Queue.Enqueue.{enqueue_many, recover_interrupted_jobs}
use llm_wiki_engine.Ingest.Queue.Enqueue.Laws.{
  Recoverable, Unrecoverable, find_task, enqueue_many_schedules, recover_interrupted_jobs_exact,
}
use llm_wiki_engine.Ingest.Queue.Run.{Outcome, raised, execute}
use llm_wiki_engine.Ingest.Queue.Run.Termination.{Settles, Undisturbed, execute-Settles}
use llm_wiki_engine.Ingest.Queue.Run.Cleared.{execute_of_deleted_row, pause_project_orphans}

abbrev job_in : JobStatus → String → String → IngestJob
job_in status id project_id = record {
  id = id;
  project_id = project_id;
  source_path = "raw/sources/a.md";
  status = status;
  progress = queued;
  step = 1;
  files_written = none;
  error = none;
  retry_count = 0;
  created_by = 1;
  created_at = 5;
  completed_at = none;
}

abbrev four_jobs : IngestQueue
four_jobs = record {
  jobs =
      job_in processing "a" "p"
      ∷ job_in pending "b" "p"
      ∷ job_in paused "c" "p"
      ∷ job_in processing "d" "r"
      ∷ [];
  projects =
      record { id = "p"; disk_path = "/data/p"; ingest_paused = false }
      ∷ record { id = "r"; disk_path = "/data/r"; ingest_paused = true }
      ∷ [];
  tasks = [];
  clock = 9;
  drawn = 0;
}

four_jobs_Distinct : Distinct (ids_of four_jobs.jobs)
four_jobs_Distinct = (refl, (refl, (refl, (refl, tt))))

pause_project-IsQuiet_example : IsQuiet "p" (pause_project "p" four_jobs).2
pause_project-IsQuiet_example = pause_project-IsQuiet "p" four_jobs four_jobs_Distinct

get_job-pause_project_other_example :
    get_job "d" (pause_project "p" four_jobs).2 ≡ some (job_in processing "d" "r")
unfolding get_job find_job
get_job-pause_project_other_example =
    get_job-pause_project_other "p" "d" four_jobs (job_in processing "d" "r") four_jobs_Distinct
      refl refl

resume_project_schedules_example :
    All
      (λ j. Waits "p" j → is_scheduled j.id (resume_project "p" "/data/p" four_jobs).1.tasks ≡ true)
      (resume_project "p" "/data/p" four_jobs).1.jobs
resume_project_schedules_example = resume_project_schedules "p" "/data/p" four_jobs

abbrev drawn_id : ℕ → String
drawn_id n = "x"

enqueue_many_schedules_example :
    let r = enqueue_many drawn_id "p" "/data/p" ("a.md" ∷ "b.md" ∷ []) 1 four_jobs in
    (length r.0 ≡ length {A = String} ("a.md" ∷ "b.md" ∷ []))
    × (is_project_paused "p" four_jobs ≡ false → All (λ k. is_scheduled k r.1.tasks ≡ true) r.0)
    × (is_project_paused "p" four_jobs ≡ true → r.1.tasks ≡ four_jobs.tasks)
enqueue_many_schedules_example =
    enqueue_many_schedules drawn_id "p" "/data/p" ("a.md" ∷ "b.md" ∷ []) 1 four_jobs

recover_interrupted_jobs_example :
    (All (λ i. i.id ≡ "b" → Recoverable four_jobs i) four_jobs.jobs
      → All
          (λ j.
            is_active j.status ≡ true
            → j.id ≡ "b"
            → is_scheduled "b" (recover_interrupted_jobs four_jobs).1.tasks ≡ true)
          four_jobs.jobs)
    × (All (λ i. i.id ≡ "b" → Unrecoverable four_jobs i) four_jobs.jobs
        → find_task "b" (recover_interrupted_jobs four_jobs).1.tasks
          ≡ find_task "b" four_jobs.tasks)
recover_interrupted_jobs_example = recover_interrupted_jobs_exact "b" four_jobs

-- Every attempt fails, and nothing else happens to the queue.
abbrev failing : ℕ → IngestQueue → Outcome × IngestQueue
failing step q = (raised "parse error", q)

abbrev published : IngestQueue → Option String × IngestQueue
published q = (none, q)

undisturbed_failing : Undisturbed failing published "a"
undisturbed_failing = record {
  row_after = λ s q j. j;
  row_kept = λ s q j h. h;
  retries_kept = λ s q j. refl;
  pause_honest = λ s q j e h. cc;
  publish_kept = λ q. refl;
}

execute-Settles_example : Settles "a" (execute failing published 3 "a" 1 four_jobs) 0
unfolding get_job find_job
execute-Settles_example =
    execute-Settles failing published "a" undisturbed_failing 1 four_jobs
      (job_in processing "a" "p") refl

execute_of_deleted_row_example : execute failing published 100 "gone" 1 four_jobs ≡ none
unfolding get_job find_job
execute_of_deleted_row_example =
    execute_of_deleted_row failing published "gone" "parse error" (λ s q. refl) (λ s q h. h) 100 1
      four_jobs refl

pause_project_orphans_example :
    (get_job "c" (pause_project "p" four_jobs).2 ≡ none)
    × ((pause_project "p" four_jobs).2.tasks ≡ four_jobs.tasks)
unfolding get_job find_job
pause_project_orphans_example =
    pause_project_orphans "p" "c" four_jobs (job_in paused "c" "p") four_jobs_Distinct refl refl
      refl
