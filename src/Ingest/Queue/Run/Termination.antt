-- ===== src/Ingest/Queue/Run/Termination.antt =====
-- app/ingest/queue.py: how a run leaves the row of its job.
use llm_wiki_engine.Prelude.{
  ℕ, zero, suc, ◌+◌, ◌≤◌, ◌<◌, max, String, ◌≡◌, refl, ◌∙◌, ◌⊎◌, inl, inr, true, Option, none, some,
  List, [], ◌∷◌, arith, Bool-cases, Option-cases, ltb, ltb→lt, ◌==◌, string_eq,
}
use llm_wiki_engine.Ingest.Queue.{
  paused, done, failed, status_eq, paused_text, IngestJob, IngestQueue, find_job, update_rows,
  get_job, update_job, is_paused, max_retries,
}
use llm_wiki_engine.Ingest.Queue.Run.{
  Outcome, written, job_paused, raised, start_values, done_values, retry_values, failed_values,
  conclude, after_ingest, attempt, settle_pause, settle, execute,
}

find_job-update_rows_self :
    (k : String) (f : IngestJob → IngestJob) (js : List IngestJob) (j : IngestJob)
    → ((r : IngestJob) → (f r).id ≡ r.id)
    → find_job k js ≡ some j
    → find_job k (update_rows k f js) ≡ some (f j)
unfolding find_job update_rows
find_job-update_rows_self k f [] j same h = cc
find_job-update_rows_self k f (r ∷ js) j same h = elim (Bool-cases (r.id == k)) [
  | inl e ↦ ground (arith, same r)
  | inr n ↦ ground (arith, find_job-update_rows_self k f js j same)
]

pub get_job-update_job :
    (k : String) (f : IngestJob → IngestJob) (q : IngestQueue) (j : IngestJob)
    → ((r : IngestJob) → (f r).id ≡ r.id)
    → get_job k q ≡ some j
    → get_job k (update_job k f q) ≡ some (f j)
unfolding get_job update_job
get_job-update_job k f q j same h = find_job-update_rows_self k f q.jobs j same h

-- How a run may leave the row.
abbrev pub IsSettled : IngestJob → Type 0
IsSettled j =
    ((j.status ≡ done) × (j.step ≡ 3) × (j.error ≡ none))
    ⊎ ((j.status ≡ failed) × (max_retries ≤ j.retry_count))
    ⊎ ((j.status ≡ paused) × (j.progress ≡ paused_text))

module _ (auto_ingest : ℕ → IngestQueue → Outcome × IngestQueue)
    (publish : IngestQueue → Option String × IngestQueue) (k : String) where
  -- What runs beside the job neither deletes its row nor counts retries on it, a publication
  -- leaves the row alone, and `JobPaused` is raised only of a row that is paused.
  pub record Undisturbed : Type 0 where
    pub row_after : ℕ → IngestQueue → IngestJob → IngestJob
    pub row_kept :
        (s : ℕ) (q : IngestQueue) (j : IngestJob)
        → get_job k q ≡ some j
        → get_job k (auto_ingest s q).1 ≡ some (row_after s q j)
    pub retries_kept :
        (s : ℕ) (q : IngestQueue) (j : IngestJob) → (row_after s q j).retry_count ≡ j.retry_count
    pub pause_honest :
        (s : ℕ) (q : IngestQueue) (j : IngestJob)
        → (auto_ingest s q).0 ≡ job_paused
        → get_job k q ≡ some j
        → (row_after s q j).status ≡ paused
    pub publish_kept : (q : IngestQueue) → get_job k (publish q).1 ≡ get_job k q

-- What an attempt leaves, by its outcome, of a row with the retry count `r`.
abbrev RowFits : Outcome → ℕ → IngestJob → Type 0
RowFits (written files) r j =
    (j.retry_count ≡ r) × (j.status ≡ done) × (j.step ≡ 3) × (j.error ≡ none)
RowFits job_paused r j = (j.retry_count ≡ r) × (j.status ≡ paused)
RowFits (raised e) r j = j.retry_count ≡ r

abbrev RowAfter : String → Outcome × IngestQueue → ℕ → Type 0
RowAfter k (o, q) r = (j : IngestJob) × (get_job k q ≡ some j) × RowFits o r j

module _ (auto_ingest : ℕ → IngestQueue → Outcome × IngestQueue)
    (publish : IngestQueue → Option String × IngestQueue) (k : String)
    (calm : Undisturbed auto_ingest publish k) where
  conclude-RowAfter :
      (files : List String) (q : IngestQueue) (j : IngestJob)
      → get_job k q ≡ some j
      → RowAfter k (conclude auto_ingest publish k files q) j.retry_count
  unfolding conclude
  conclude-RowAfter [] q j h = (
    done_values [] q.clock j,
    get_job-update_job k (done_values [] q.clock) q j (λ r. refl) h,
    (refl, refl, refl, refl),
  )
  conclude-RowAfter (f ∷ fs) q j h = elim (Option-cases (publish q1).0) [
    | inl e ↦ rw (e, conclude) (j1, found, (refl, refl, refl, refl))
    | inr (x, e) ↦ rw (e, conclude) (j1, found, refl)
  ]
    where
      j1 : IngestJob
      j1 = done_values (f ∷ fs) q.clock j

      q1 : IngestQueue
      q1 = update_job k (done_values (f ∷ fs) q.clock) q

      found : get_job k (publish q1).1 ≡ some j1
      found =
          calm.publish_kept q1
          ∙ get_job-update_job k (done_values (f ∷ fs) q.clock) q j (λ r. refl) h

  after_ingest-RowAfter :
      (o : Outcome) (q : IngestQueue) (j : IngestJob)
      → get_job k q ≡ some j
      → (o ≡ job_paused → j.status ≡ paused)
      → RowAfter k (after_ingest auto_ingest publish k (o, q)) j.retry_count
  unfolding after_ingest
  after_ingest-RowAfter (written files) q j h p = conclude-RowAfter files q j h
  after_ingest-RowAfter job_paused q j h p = (j, h, (refl, p refl))
  after_ingest-RowAfter (raised e) q j h p = (j, h, refl)

  attempt-RowAfter :
      (s : ℕ) (q : IngestQueue) (j : IngestJob)
      → get_job k q ≡ some j
      → RowAfter k (attempt auto_ingest publish k s q) j.retry_count
  unfolding attempt
  attempt-RowAfter s q j h = rw (calm.retries_kept s q0 j0) at (
      after_ingest-RowAfter (auto_ingest s q0).0 (auto_ingest s q0).1 (calm.row_after s q0 j0)
        (calm.row_kept s q0 j0 h0) (λ e. calm.pause_honest s q0 j0 e h0))
    where
      j0 : IngestJob
      j0 = start_values j

      q0 : IngestQueue
      q0 = update_job k start_values q

      h0 : get_job k q0 ≡ some j0
      h0 = get_job-update_job k start_values q j (λ r. refl) h

-- The result of the run, and the row that it leaves.
abbrev pub Settles : String → Option IngestQueue → ℕ → Type 0
Settles k result r =
    (q1 : IngestQueue) × (j1 : IngestJob) × (result ≡ some q1)
    × (get_job k q1 ≡ some j1)
    × IsSettled j1
    × (j1.retry_count ≤ max r max_retries)

is_paused_of_row :
    (k : String) (q : IngestQueue) (j : IngestJob)
    → get_job k q ≡ some j
    → j.status ≡ paused
    → is_paused k q ≡ true
unfolding is_paused
is_paused_of_row k q j h p = rw (h, is_paused) (ground arith)

get_job-settle_pause :
    (k : String) (q : IngestQueue) (j : IngestJob)
    → get_job k q ≡ some j
    → j.status ≡ paused
    → get_job k (settle_pause k q) ≡ some (record j { progress = paused_text })
unfolding settle_pause
get_job-settle_pause k q j h p =
    rw (is_paused_of_row k q j h p) (get_job-update_job k _ q j (λ r. refl) h)

-- If the retry settles every row that has one retry more, the handler settles this row.
settle-Settles :
    (again : ℕ → IngestQueue → Option IngestQueue) (k : String) (o : Outcome) (q : IngestQueue)
    (r : ℕ)
    → (r < max_retries
        → (s : ℕ) (q1 : IngestQueue) (j1 : IngestJob) → get_job k q1 ≡ some j1
        → j1.retry_count ≡ suc r
        → Settles k (again s q1) (suc r))
    → RowAfter k (o, q) r
    → Settles k (settle again k (o, q)) r
unfolding settle
settle-Settles again k (written files) q r rec (j, h, f) =
    (q, j, refl, h, inl (f.1, f.2, f.3), omega arith)
settle-Settles again k job_paused q r rec (j, h, f) = (
  settle_pause k q,
  record j { progress = paused_text },
  refl,
  get_job-settle_pause k q j h f.1,
  inr (inr (f.1, refl)),
  omega arith,
)
settle-Settles again k (raised e) q r rec (j, h, f) =
    elim (Bool-cases (ltb j.retry_count max_retries)) [
      | inl more ↦
          let (q1, j1, run, row, fits, bound) =
            rec (omega (arith, ltb→lt _ _ more)) j.step q2 (retry_values j.retry_count e j)
              (get_job-update_job k (retry_values j.retry_count e) q j (λ x. refl) h)
              (omega arith) in
          (q1, j1, rw (h, settle) (rw more run), row, fits, omega (arith, ltb→lt _ _ more))
      | inr last ↦ (
        update_job k (failed_values e q.clock) q,
        failed_values e q.clock j,
        rw (h, settle) (rw last),
        get_job-update_job k (failed_values e q.clock) q j (λ x. refl) h,
        inr (inl (refl, ground arith)),
        omega arith,
      )
    ]
  where
    q2 : IngestQueue
    q2 = update_job k (retry_values j.retry_count e) q

module _ (auto_ingest : ℕ → IngestQueue → Outcome × IngestQueue)
    (publish : IngestQueue → Option String × IngestQueue) (k : String)
    (calm : Undisturbed auto_ingest publish k) where
  execute-Settles_from :
      (fuel s : ℕ) (q : IngestQueue) (j : IngestJob)
      → get_job k q ≡ some j
      → max_retries ≤ j.retry_count + fuel
      → Settles k (execute auto_ingest publish (suc fuel) k s q) j.retry_count
  unfolding execute
  execute-Settles_from zero s q j h enough =
      settle-Settles (execute auto_ingest publish zero k) k (attempt auto_ingest publish k s q).0
        (attempt auto_ingest publish k s q).1 j.retry_count (λ more. absurd (omega arith))
        (attempt-RowAfter auto_ingest publish k calm s q j h)
  execute-Settles_from (suc fuel) s q j h enough =
      settle-Settles (execute auto_ingest publish (suc fuel) k) k
        (attempt auto_ingest publish k s q).0 (attempt auto_ingest publish k s q).1 j.retry_count
        (λ more s1 q1 j1 h1 e. rw e at (execute-Settles_from fuel s1 q1 j1 h1 (omega arith)))
        (attempt-RowAfter auto_ingest publish k calm s q j h)

  -- A run of a job whose row nothing else disturbs ends after at most three attempts, whatever
  -- the attempts do: the row is done with its error cleared, or failed with its retries used up,
  -- or paused, and its retry count never passes the larger of its old value and `max_retries`.
  pub execute-Settles :
      (s : ℕ) (q : IngestQueue) (j : IngestJob)
      → get_job k q ≡ some j
      → Settles k (execute auto_ingest publish 3 k s q) j.retry_count
  execute-Settles s q j h = execute-Settles_from 2 s q j h (omega arith)
