-- ===== src/Ingest/Queue/Run.antt =====
-- app/ingest/queue.py: the run of one job, its retries and its cooperative pause.
pub mod Termination
pub mod Cleared
use llm_wiki_engine.Prelude.{
  ℕ, zero, suc, ◌+◌, String, Bool, true, false, Option, none, some, List, [], ◌∷◌, ltb, ◌==◌,
  string_eq, if◌then◌else◌,
}
use llm_wiki_engine.Ingest.Queue.{
  JobStatus, pending, processing, paused, done, failed, status_eq, Progress, paused_text, starting,
  complete, failed_text, retry, IngestJob, IngestQueue, get_job, update_job, is_paused, max_retries,
}

-- How one call of `auto_ingest`, or the whole try block, ends.
pub data Outcome : Type 0 where
  written : List String → Outcome
  job_paused : Outcome
  raised : String → Outcome

-- `check_pause` of `_make_pause_checker`: whether it raises `JobPaused`.
unfoldable pub check_pause : String → IngestQueue → Bool
unfolding is_paused
check_pause job_id q = is_paused job_id q

abbrev pub start_values : IngestJob → IngestJob
start_values row = record row { status = processing; progress = starting; completed_at = none }

abbrev pub done_values : List String → ℕ → IngestJob → IngestJob
done_values files now row = record row {
  status = done;
  progress = complete;
  step = 3;
  files_written = some files;
  error = none;
  completed_at = some now;
}

abbrev pub retry_values : ℕ → String → IngestJob → IngestJob
retry_values retry_count error row = record row {
  status = pending;
  progress = retry (retry_count + 1) max_retries;
  retry_count = retry_count + 1;
  error = some error;
}

abbrev pub failed_values : String → ℕ → IngestJob → IngestJob
failed_values error now row = record row {
  status = failed;
  progress = failed_text;
  error = some error;
  completed_at = some now;
}

abbrev pub retry_count_of : Option IngestJob → ℕ
retry_count_of none = 0
retry_count_of (some job) = job.retry_count

abbrev pub step_of : Option IngestJob → ℕ
step_of none = 0
step_of (some job) = job.step

-- The handler of `JobPaused`.
unfoldable pub settle_pause : String → IngestQueue → IngestQueue
unfolding is_paused update_job
settle_pause job_id q =
    if is_paused job_id q
    then update_job job_id (λ row. record row { progress = paused_text }) q
    else q

-- The handler of all other exceptions; `again` is the call of `_execute` from a resume step.
unfoldable pub settle_error :
    (ℕ → IngestQueue → Option IngestQueue)
    → String
    → String
    → Option IngestJob
    → IngestQueue
    → Option IngestQueue
unfolding update_job
settle_error again job_id error job q =
    let retried =
      again (step_of job) (update_job job_id (retry_values (retry_count_of job) error) q) in
    if ltb (retry_count_of job) max_retries
    then retried
    else some (update_job job_id (failed_values error q.clock) q)

-- What follows the try block, by its outcome.
unfoldable pub settle :
    (ℕ → IngestQueue → Option IngestQueue) → String → Outcome × IngestQueue → Option IngestQueue
unfolding settle_pause settle_error get_job
settle again job_id (written files, q) = some q
settle again job_id (job_paused, q) = some (settle_pause job_id q)
settle again job_id (raised e, q) = settle_error again job_id e (get_job job_id q) q

-- `auto_ingest` from a resume step, and the publication to git, each with whatever the other
-- tasks of the server do to the queue while it runs. Publication may raise.
module _ (auto_ingest : ℕ → IngestQueue → Outcome × IngestQueue)
    (publish : IngestQueue → Option String × IngestQueue) where
  -- The rest of the try block after `auto_ingest` returned the paths that it wrote.
  unfoldable pub conclude : String → List String → IngestQueue → Outcome × IngestQueue
  unfolding update_job
  conclude job_id [] q = (written [], update_job job_id (done_values [] q.clock) q)
  conclude job_id (f ∷ fs) q =
      let (error, q1) = publish (update_job job_id (done_values (f ∷ fs) q.clock) q) in
      (elim error [ none ↦ written (f ∷ fs) | some e ↦ raised e ], q1)

  unfoldable pub after_ingest : String → Outcome × IngestQueue → Outcome × IngestQueue
  unfolding conclude
  after_ingest job_id (written files, q) = conclude job_id files q
  after_ingest job_id (job_paused, q) = (job_paused, q)
  after_ingest job_id (raised e, q) = (raised e, q)

  -- The first update and the try block of `_execute`.
  unfoldable pub attempt : String → ℕ → IngestQueue → Outcome × IngestQueue
  unfolding after_ingest update_job
  attempt job_id resume_step q =
      after_ingest job_id (auto_ingest resume_step (update_job job_id start_values q))

  -- `_execute`, which calls itself at most `fuel` times; `none` means that it is still retrying.
  unfoldable pub execute : ℕ → String → ℕ → IngestQueue → Option IngestQueue
  unfolding attempt settle
  execute zero job_id resume_step q = none
  execute (suc fuel) job_id resume_step q =
      settle (execute fuel job_id) job_id (attempt job_id resume_step q)
