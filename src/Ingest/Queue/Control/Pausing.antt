-- ===== src/Ingest/Queue/Control/Pausing.antt =====
-- What `pause_job`, `pause_all` and `pause_project` leave in the job table.
use llm_wiki_engine.Prelude.{
  String, ◌≡◌, refl, Bool, true, false, not, ◌&&◌, none, some, List, [], ◌∷◌, map, arith, inl, inr,
  Bool-cases, Option-cases, All, All-mp, All-filter, All-and, Distinct, contains, filter, ◌==◌,
  string_eq, eq_iff, if◌then◌else◌,
}
use llm_wiki_engine.Ingest.Queue.{
  pending, processing, paused, status_eq, IngestJob, IngestQueue, find_job, update_rows,
}
use llm_wiki_engine.Ingest.Queue.Control.{
  is_active, pause_values, pause_job, count_calls, select_jobs, pause_all, pause_project,
}

-- A row that may be active only if its id is still to be paused.
abbrev Remaining : String → List String → IngestJob → Type 0
Remaining project_id ids j =
    (j.project_id == project_id && is_active j.status) ≡ true → contains ids j.id ≡ true

abbrev pub ids_of : List IngestJob → List String
ids_of = map (λ j. j.id)

-- No row of the table has an active status if it has this id.
abbrev SettledAt : String → List IngestJob → Type 0
SettledAt k = All (λ j. (j.id == k && is_active j.status) ≡ false)

absent_settled :
    (k : String) (js : List IngestJob) → contains (ids_of js) k ≡ false → SettledAt k js
absent_settled k [] h = tt
absent_settled k (j ∷ js) h = (ground arith, absent_settled k js (ground arith))

update_settled :
    (k : String) (job : IngestJob) (js : List IngestJob)
    → SettledAt k (update_rows k (pause_values job) js)
unfolding update_rows
update_settled k job [] = tt
update_settled k job (j ∷ js) = (ground arith, update_settled k job js)

find_none_settled : (k : String) (js : List IngestJob) → find_job k js ≡ none → SettledAt k js
unfolding find_job
find_none_settled k [] h = tt
find_none_settled k (j ∷ js) h = (ground arith, find_none_settled k js (ground arith))

find_idle_settled :
    (k : String) (js : List IngestJob) (job : IngestJob)
    → Distinct (ids_of js)
    → find_job k js ≡ some job
    → is_active job.status ≡ false
    → SettledAt k js
unfolding find_job
find_idle_settled k [] job u h i = tt
find_idle_settled k (j ∷ js) job u h i =
    ground (arith, eq_iff j.id k, absent_settled k js, find_idle_settled k js job)

-- After `pause_job k` no row with the id k is active.
pause_job_settled :
    (k : String) (q : IngestQueue) → Distinct (ids_of q.jobs) → SettledAt k (pause_job k q).1.jobs
unfolding pause_job
pause_job_settled k q u = elim (Option-cases (find_job k q.jobs)) [
  | inl e ↦ rw (e, pause_job) (find_none_settled k q.jobs e)
  | inr (job, e) ↦
      rw (e, pause_job)
        (elim (Bool-cases (is_active job.status)) [
          | inl a ↦ rw a (update_settled k job q.jobs)
          | inr i ↦ rw i (find_idle_settled k q.jobs job u e i)
        ])
]

ids_of-update_rows :
    (k : String) (job : IngestJob) (js : List IngestJob)
    → ids_of (update_rows k (pause_values job) js) ≡ ids_of js
unfolding update_rows
ids_of-update_rows k job [] = refl
ids_of-update_rows k job (j ∷ js) = ground (arith, ids_of-update_rows k job js)

ids_of-pause_job : (k : String) (q : IngestQueue) → ids_of (pause_job k q).1.jobs ≡ ids_of q.jobs
unfolding pause_job
ids_of-pause_job k q = elim (Option-cases (find_job k q.jobs)) [
  | inl e ↦ rw (e, pause_job)
  | inr (job, e) ↦
      rw (e, pause_job)
        (elim (Bool-cases (is_active job.status)) [
          | inl a ↦ rw a (ids_of-update_rows k job q.jobs)
          | inr i ↦ rw i
        ])
]

Remaining-step :
    (p k : String) (ids : List String) (job : IngestJob) (js : List IngestJob)
    → All (Remaining p ids) js
    → All (Remaining p ids) (update_rows k (pause_values job) js)
unfolding update_rows
Remaining-step p k ids job [] h = tt
Remaining-step p k ids job (j ∷ js) h =
    (λ a. ground (arith, h.0), Remaining-step p k ids job js h.1)

Remaining-pause_job :
    (p k : String) (ids : List String) (q : IngestQueue)
    → All (Remaining p ids) q.jobs
    → All (Remaining p ids) (pause_job k q).1.jobs
unfolding pause_job
Remaining-pause_job p k ids q h = elim (Option-cases (find_job k q.jobs)) [
  | inl e ↦ rw (e, pause_job) h
  | inr (job, e) ↦
      rw (e, pause_job)
        (elim (Bool-cases (is_active job.status)) [
          | inl a ↦ rw a (Remaining-step p k ids job q.jobs h)
          | inr i ↦ rw i h
        ])
]

drop_first :
    (p k : String) (ids : List String) (js : List IngestJob)
    → All (Remaining p (k ∷ ids)) js
    → SettledAt k js
    → All (Remaining p ids) js
drop_first p k ids [] h s = tt
drop_first p k ids (j ∷ js) h s =
    (λ a. ground (arith, h.0, eq_iff j.id k, eq_iff k j.id), drop_first p k ids js h.1 s.1)

pause_loop_settles :
    (p : String) (sel : List IngestJob) (q : IngestQueue)
    → Distinct (ids_of q.jobs)
    → All (Remaining p (ids_of sel)) q.jobs
    → All (Remaining p []) (count_calls (λ job. pause_job job.id) sel q).1.jobs
unfolding count_calls
pause_loop_settles p [] q u h = h
pause_loop_settles p (s ∷ sel) q u h =
    pause_loop_settles p sel (pause_job s.id q).1 (rw ids_of-pause_job u) (
      drop_first p s.id (ids_of sel) _ (Remaining-pause_job p s.id (ids_of (s ∷ sel)) q h)
        (pause_job_settled s.id q u))

-- The selected rows cover every processing row of the project.
abbrev Covered : String → List String → IngestJob → Type 0
Covered p ids j =
    (j.project_id == p && contains (processing ∷ []) j.status) ≡ true → contains ids j.id ≡ true

Covered-by_select :
    (p : String) (js : List IngestJob)
    → All (Covered p (ids_of (select_jobs p (processing ∷ []) js))) js
unfolding select_jobs
Covered-by_select p [] = tt
Covered-by_select p (j ∷ js) =
    elim (j.project_id == p && contains (processing ∷ []) j.status)
        as (λ b.
          (j.project_id == p && contains (processing ∷ []) j.status) ≡ b
          → let rest = select_jobs p (processing ∷ []) js in
            let ids = ids_of (if b then j ∷ rest else rest) in
            Covered p ids j × All (Covered p ids) js) [
              | true ↦ λ e. (
                λ _. ground (arith, eq_iff j.id j.id),
                All-mp _ _ js (λ r f a. ground (arith, f a)) (Covered-by_select p js),
              )
              | false ↦ λ e. (λ a. cc, Covered-by_select p js)
            ]
      refl

contains-ids_of-filter :
    (f : IngestJob → Bool) (js : List IngestJob) (k : String)
    → contains (ids_of js) k ≡ false
    → contains (ids_of (filter f js)) k ≡ false
contains-ids_of-filter f [] k h = refl
contains-ids_of-filter f (j ∷ js) k h = ground (arith, contains-ids_of-filter f js k)

Distinct-ids_of-filter :
    (f : IngestJob → Bool) (js : List IngestJob)
    → Distinct (ids_of js)
    → Distinct (ids_of (filter f js))
Distinct-ids_of-filter f [] u = tt
Distinct-ids_of-filter f (j ∷ js) u =
    elim (f j) as (λ b. Distinct (ids_of (if b then j ∷ filter f js else filter f js))) [
      | true ↦ (contains-ids_of-filter f js j.id u.0, Distinct-ids_of-filter f js u.1)
      | false ↦ Distinct-ids_of-filter f js u.1
    ]

-- No job of the project is pending or processing.
abbrev pub IsQuiet : String → IngestQueue → Type 0
IsQuiet p q = All (λ j. (j.project_id == p && is_active j.status) ≡ false) q.jobs

-- No row of the project is pending.
abbrev NoPending : String → IngestJob → Type 0
NoPending p j = (j.project_id == p && j.status == pending) ≡ false

pause_all-IsQuiet :
    (p : String) (q : IngestQueue)
    → Distinct (ids_of q.jobs)
    → All (NoPending p) q.jobs
    → IsQuiet p (pause_all p false q).1
unfolding pause_all
pause_all-IsQuiet p q u h =
    All-mp (Remaining p []) _ _ (λ j f. ground (arith, f))
      (pause_loop_settles p sel q u (
        All-mp (λ j. Covered p (ids_of sel) j × NoPending p j) _ q.jobs
          (λ j f. λ a. ground (arith, f.0, f.1))
          (All-and (Covered p (ids_of sel)) (NoPending p) q.jobs (Covered-by_select p q.jobs) h)))
  where
    sel : List IngestJob
    sel = select_jobs p (processing ∷ []) q.jobs

-- After `pause_project` no job of the project is left pending or processing, when no two rows
-- have the same id.
pub pause_project-IsQuiet :
    (p : String) (q : IngestQueue) → Distinct (ids_of q.jobs) → IsQuiet p (pause_project p q).2
unfolding pause_project
pause_project-IsQuiet p q u = pause_all-IsQuiet p _ (Distinct-ids_of-filter keep q.jobs u) (
    All-mp (λ j. keep j ≡ true) _ (filter keep q.jobs) (λ j f. ground arith)
      (All-filter keep q.jobs))
  where
    keep : IngestJob → Bool
    keep j = not (j.project_id == p && contains (pending ∷ paused ∷ []) j.status)
