-- ===== src/Ingest/Files/Status/Choice.antt =====
-- Which job stands for a source among all its jobs.
use llm_wiki_engine.Prelude.{
  Bool, true, ◌≡◌, refl, sym, ap, ◌∙◌, false, Option, none, some, List, [], ◌∷◌, map, filter, any,
  ◌==◌, if◌then◌else◌, Bool-cases, inl, inr, arith,
}
use llm_wiki_engine.Text.{Text, text_beq_iff}
use llm_wiki_engine.Ingest.Writer.{text_eq}
use llm_wiki_engine.Ingest.Queue.{
  JobStatus, pending, processing, paused, done, failed, status_eq, IngestJob,
}
use llm_wiki_engine.Ingest.Files.{
  FileStatus, is_processing, is_queued, is_failed, is_updated, is_compiled, is_not_queued,
}
use llm_wiki_engine.Ingest.Files.Paths.{Disk}
use llm_wiki_engine.Ingest.Files.Status.{
  is_live, job_file_status, by_priority, choose_job, LatestJobs, note_job, find_latest, status_of,
  job_status_of, identity_of_job, latest_jobs,
}

-- The last status of a list that starts with the given one.
abbrev pub last_status : JobStatus → List JobStatus → JobStatus
last_status s [] = s
last_status s (t ∷ ts) = last_status t ts

-- What the jobs of a source say, described on the whole list of their statuses: a running job wins,
-- then a waiting one; without either the newest job counts, which matters only if it failed.
abbrev pub jobs_say : List JobStatus → Option FileStatus
jobs_say [] = none
jobs_say (s ∷ ss) =
    if any (λ t. t == processing) (s ∷ ss)
    then some is_processing
    else if any is_live (s ∷ ss)
    then some is_queued
    else job_file_status (last_status s ss)

-- Whether the newest job failed.
abbrev pub newest_failed : List JobStatus → Bool
newest_failed [] = false
newest_failed (s ∷ ss) = last_status s ss == failed

-- The status of a source with jobs of these statuses, oldest first, whose content changed or is in
-- the cache, case by case.
pub record IsStatus (ss : List JobStatus) (changed cached : Bool) (s : FileStatus) : Type 0 where
  pub running : any (λ t. t == processing) ss ≡ true → s ≡ is_processing
  pub waits : any (λ t. t == processing) ss ≡ false → any is_live ss ≡ true → s ≡ is_queued
  pub fails : any is_live ss ≡ false → newest_failed ss ≡ true → s ≡ is_failed
  pub stale : any is_live ss ≡ false → newest_failed ss ≡ false → changed ≡ true → s ≡ is_updated
  pub fresh :
      any is_live ss ≡ false
      → newest_failed ss ≡ false
      → changed ≡ false
      → cached ≡ true
      → s ≡ is_compiled
  pub unseen :
      any is_live ss ≡ false
      → newest_failed ss ≡ false
      → changed ≡ false
      → cached ≡ false
      → s ≡ is_not_queued

last_status_over :
    (s : JobStatus) (ss : List JobStatus)
    → any is_live (s ∷ ss) ≡ false
    → is_live (last_status s ss) ≡ false
last_status_over s [] h = ground (arith, h)
last_status_over s (t ∷ ts) h = last_status_over t ts (ground (arith, h))

running_live :
    (ss : List JobStatus) → any is_live ss ≡ false → any (λ t. t == processing) ss ≡ false
running_live [] h = refl
running_live (s ∷ ss) h = ground (arith, running_live ss)

says_over :
    (ss : List JobStatus)
    → any is_live ss ≡ false
    → jobs_say ss ≡ (if newest_failed ss then some is_failed else none)
says_over [] h = refl
says_over (s ∷ ss) h = ground (arith, last_status_over s ss h, running_live (s ∷ ss) h)

says_waiting :
    (ss : List JobStatus)
    → any (λ t. t == processing) ss ≡ false
    → any is_live ss ≡ true
    → jobs_say ss ≡ some is_queued
says_waiting [] h k = cc
says_waiting (s ∷ ss) h k = ground arith

says_running :
    (ss : List JobStatus) → any (λ t. t == processing) ss ≡ true → jobs_say ss ≡ some is_processing
says_running [] h = cc
says_running (s ∷ ss) h = ground arith

-- What the jobs say, and else the content, is the status.
pub status_of-IsStatus :
    (ss : List JobStatus) (changed cached : Bool)
    → IsStatus ss changed cached (status_of (jobs_say ss) changed cached)
unfolding status_of
status_of-IsStatus ss changed cached = record {
  running = λ h. rw (says_running ss h) refl;
  waits = λ h k. rw (says_waiting ss h k) refl;
  fails = λ h k. rw (says_over ss h, k) refl;
  stale = λ h k c. rw (says_over ss h, k, c) refl;
  fresh = λ h k c d. rw (says_over ss h, k, c, d) refl;
  unseen = λ h k c d. rw (says_over ss h, k, c, d) refl;
}

-- The status of the job that `choose_job` takes.
abbrev choose_status : JobStatus → JobStatus → JobStatus
choose_status processing t = processing
choose_status pending processing = processing
choose_status pending t = pending
choose_status paused processing = processing
choose_status paused t = paused
choose_status done t = t
choose_status failed t = t

choose_status_lem : (c j : IngestJob) → (choose_job c j).status ≡ choose_status c.status j.status
unfolding choose_job by_priority
choose_status_lem c j = ground arith

jobs_say-choose :
    (s t : JobStatus) (ts : List JobStatus)
    → jobs_say (s ∷ t ∷ ts) ≡ jobs_say (choose_status s t ∷ ts)
jobs_say-choose s t ts = ground arith

-- The loop over the jobs of one identity.
abbrev settle_jobs : Option IngestJob → List IngestJob → Option IngestJob
settle_jobs none [] = none
settle_jobs none (j ∷ js) = settle_jobs (some j) js
settle_jobs (some c) [] = some c
settle_jobs (some c) (j ∷ js) = settle_jobs (some (choose_job c j)) js

settle_jobs-says :
    (c : IngestJob) (js : List IngestJob)
    → job_status_of (settle_jobs (some c) js) ≡ jobs_say (map (λ j. j.status) (c ∷ js))
settle_jobs-says c [] = ground arith
settle_jobs-says c (j ∷ js) =
    settle_jobs-says (choose_job c j) js
    ∙ ap (λ s. jobs_say (s ∷ map (λ j. j.status) js)) (choose_status_lem c j)
    ∙ sym (jobs_say-choose c.status j.status (map (λ j. j.status) js))

settle_jobs-cons :
    (o : Option IngestJob) (j : IngestJob) (js : List IngestJob)
    → settle_jobs (settle_jobs o (j ∷ [])) js ≡ settle_jobs o (j ∷ js)
settle_jobs-cons none j js = refl
settle_jobs-cons (some c) j js = refl

find_latest-note_job :
    (identity : Text) (job : IngestJob) (latest : LatestJobs)
    → find_latest identity (note_job identity job latest)
      ≡ settle_jobs (find_latest identity latest) (job ∷ [])
unfolding find_latest note_job
find_latest-note_job identity job [] = rw ((text_beq_iff identity identity).1 refl) refl
find_latest-note_job identity job ((i, c) ∷ latest) = elim (Bool-cases (i == identity)) [
  | inl e ↦ rw (e, e) refl
  | inr e ↦ rw (e, e) (find_latest-note_job identity job latest)
]

find_latest-note_job_other :
    (identity other : Text) (job : IngestJob) (latest : LatestJobs)
    → (other == identity) ≡ false
    → find_latest identity (note_job other job latest) ≡ find_latest identity latest
unfolding find_latest note_job
find_latest-note_job_other identity other job [] h = rw h refl
find_latest-note_job_other identity other job ((i, c) ∷ latest) h = elim (Bool-cases (i == other)) [
  | inl e ↦
      let apart : (i == identity) ≡ false = elim (Bool-cases (i == identity)) [
        | inl e' ↦ absurd (
            ground (
              arith,
              h,
              (text_beq_iff other identity).1
                  (sym ((text_beq_iff i other).0 e) ∙ (text_beq_iff i identity).0 e'),
            ))
        | inr e' ↦ e'
      ] in
      rw (e, apart) refl
  | inr e ↦ elim (Bool-cases (i == identity)) [
    | inl e' ↦ rw (e, e') refl
    | inr e' ↦ rw (e, e') (find_latest-note_job_other identity other job latest h)
  ]
]

module _ (disk : Disk) (lower : Text → Text) (source_root : Option Text) where
  -- The jobs of one source.
  abbrev pub jobs_of : Text → List IngestJob → List IngestJob
  jobs_of identity jobs =
      filter (λ job. identity_of_job disk lower source_root job == identity) jobs

  find_latest-latest_jobs :
      (identity : Text) (jobs : List IngestJob) (latest : LatestJobs)
      → find_latest identity (latest_jobs disk lower source_root jobs latest)
        ≡ settle_jobs (find_latest identity latest) (jobs_of identity jobs)
  unfolding latest_jobs
  find_latest-latest_jobs identity [] latest = ground arith
  find_latest-latest_jobs identity (job ∷ jobs) latest =
      find_latest-latest_jobs identity jobs
        (note_job (identity_of_job disk lower source_root job) job latest)
      ∙ (elim (Bool-cases (identity_of_job disk lower source_root job == identity)) [
        | inl e ↦ rw e (
            ap (λ o. settle_jobs o (jobs_of identity jobs))
              (ap (λ i. find_latest identity (note_job i job latest))
                  ((text_beq_iff (identity_of_job disk lower source_root job) identity).0 e)
                ∙ find_latest-note_job identity job latest)
            ∙ settle_jobs-cons (find_latest identity latest) job (jobs_of identity jobs))
        | inr e ↦ rw e (
            ap (λ o. settle_jobs o (jobs_of identity jobs))
              (find_latest-note_job_other identity (identity_of_job disk lower source_root job) job
                latest e))
      ])

  settle_jobs-none-says :
      (js : List IngestJob)
      → job_status_of (settle_jobs none js) ≡ jobs_say (map (λ j. j.status) js)
  settle_jobs-none-says [] = refl
  settle_jobs-none-says (j ∷ js) = settle_jobs-says j js

  pub job_status_of_latest :
      (identity : Text) (jobs : List IngestJob)
      → job_status_of (find_latest identity (latest_jobs disk lower source_root jobs []))
        ≡ jobs_say (map (λ j. j.status) (jobs_of identity jobs))
  unfolding find_latest
  job_status_of_latest identity jobs =
      ap job_status_of (find_latest-latest_jobs identity jobs [])
      ∙ settle_jobs-none-says (jobs_of identity jobs)
