-- ===== src/Ingest/Queue/Control/Others.antt =====
-- app/ingest/queue.py: `pause_project` and the jobs of the other projects.
use llm_wiki_engine.Prelude.{
  String, ◌≡◌, refl, ◌∙◌, Bool, true, false, not, ◌&&◌, none, some, List, [], ◌∷◌, arith, inl, inr,
  Bool-cases, Option-cases, Distinct, contains, filter, ◌==◌, string_eq, eq_iff, if◌then◌else◌,
}
use llm_wiki_engine.Ingest.Queue.{
  pending, processing, paused, status_eq, IngestJob, IngestQueue, find_job, update_rows, get_job,
}
use llm_wiki_engine.Ingest.Queue.Control.{
  is_active, pause_values, pause_job, count_calls, pause_project,
}
use llm_wiki_engine.Ingest.Queue.Control.Pausing.{ids_of}

find_job-update_rows_other :
    (k m : String) (job : IngestJob) (js : List IngestJob)
    → (m == k) ≡ false
    → find_job k (update_rows m (pause_values job) js) ≡ find_job k js
unfolding find_job update_rows
find_job-update_rows_other k m job [] h = refl
find_job-update_rows_other k m job (j ∷ js) h =
    ground (arith, eq_iff j.id k, eq_iff j.id m, eq_iff m k, find_job-update_rows_other k m job js)

pause_job_other :
    (k m : String) (q : IngestQueue)
    → (m == k) ≡ false
    → find_job k (pause_job m q).1.jobs ≡ find_job k q.jobs
unfolding pause_job
pause_job_other k m q h = elim (Option-cases (find_job m q.jobs)) [
  | inl e ↦ rw (e, pause_job)
  | inr (job, e) ↦
      rw (e, pause_job)
        (elim (Bool-cases (is_active job.status)) [
          | inl a ↦ rw a (find_job-update_rows_other k m job q.jobs h)
          | inr i ↦ rw i
        ])
]

pub pause_loop_other :
    (k : String) (sel : List IngestJob) (q : IngestQueue)
    → contains (ids_of sel) k ≡ false
    → find_job k (count_calls (λ job. pause_job job.id) sel q).1.jobs ≡ find_job k q.jobs
unfolding count_calls
pause_loop_other k [] q h = refl
pause_loop_other k (s ∷ sel) q h =
    pause_loop_other k sel (pause_job s.id q).1 (ground arith)
    ∙ pause_job_other k s.id q (ground arith)

pub find_job_absent :
    (k : String) (js : List IngestJob) → contains (ids_of js) k ≡ false → find_job k js ≡ none
unfolding find_job
find_job_absent k [] h = refl
find_job_absent k (j ∷ js) h = ground (arith, find_job_absent k js)

pub absent_of_filter :
    (f : IngestJob → Bool) (k : String) (js : List IngestJob)
    → contains (ids_of js) k ≡ false
    → contains (ids_of (filter f js)) k ≡ false
absent_of_filter f k [] h = refl
absent_of_filter f k (j ∷ js) h = ground (arith, absent_of_filter f k js)

-- A row that the filter drops is not found among the rows that it keeps.
pub dropped_absent :
    (f : IngestJob → Bool) (k : String) (js : List IngestJob) (job : IngestJob)
    → Distinct (ids_of js)
    → find_job k js ≡ some job
    → f job ≡ false
    → contains (ids_of (filter f js)) k ≡ false
unfolding find_job
dropped_absent f k [] job u e d = cc
dropped_absent f k (j ∷ js) job u e d =
    ground (arith, eq_iff j.id k, absent_of_filter f k js, dropped_absent f k js job)

kept_found :
    (f : IngestJob → Bool) (k : String) (js : List IngestJob) (job : IngestJob)
    → find_job k js ≡ some job
    → f job ≡ true
    → find_job k (filter f js) ≡ some job
unfolding find_job
kept_found f k [] job e d = cc
kept_found f k (j ∷ js) job e d = ground (arith, kept_found f k js job)

Distinct-filter :
    (f : IngestJob → Bool) (js : List IngestJob)
    → Distinct (ids_of js)
    → Distinct (ids_of (filter f js))
Distinct-filter f [] u = tt
Distinct-filter f (j ∷ js) u =
    elim (f j) as (λ b. Distinct (ids_of (if b then j ∷ filter f js else filter f js))) [
      | true ↦ (absent_of_filter f j.id js u.0, Distinct-filter f js u.1)
      | false ↦ Distinct-filter f js u.1
    ]

-- `pause_project` keeps every column of a job of another project, when no two rows have the same
-- id.
pub get_job-pause_project_other :
    (p k : String) (q : IngestQueue) (job : IngestJob)
    → Distinct (ids_of q.jobs)
    → get_job k q ≡ some job
    → (job.project_id == p) ≡ false
    → get_job k (pause_project p q).2 ≡ some job
unfolding pause_project get_job
get_job-pause_project_other p k q job u e other =
    pause_loop_other k _ _ (
      dropped_absent pick k (filter keep q.jobs) job (Distinct-filter keep q.jobs u) found
        (ground arith))
    ∙ found
  where
    keep : IngestJob → Bool
    keep j = not (j.project_id == p && contains (pending ∷ paused ∷ []) j.status)

    pick : IngestJob → Bool
    pick j = j.project_id == p && contains (processing ∷ []) j.status

    found : find_job k (filter keep q.jobs) ≡ some job
    found = kept_found keep k q.jobs job e (ground arith)
