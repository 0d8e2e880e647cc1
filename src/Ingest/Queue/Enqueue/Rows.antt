-- ===== src/Ingest/Queue/Enqueue/Rows.antt =====
-- app/ingest/queue.py: the rows that `enqueue_many` inserts.
use llm_wiki_engine.Prelude.{
  ℕ, suc, ◌+◌, String, ◌≡◌, refl, sym, ap, Bool, true, false, List, [], ◌∷◌, ◌++◌, map, length, All,
  string_eq, if◌then◌else◌,
}
use llm_wiki_engine.Ingest.Queue.{
  pending, IngestJob, IngestQueue, is_project_paused, schedule_task, task_of,
}
use llm_wiki_engine.Ingest.Queue.Enqueue.{new_job, new_jobs, schedule_each, enqueue_many}

-- The rows are new, pending, of the project and the user, one for each path in order, and the
-- returned ids are theirs.
pub record Inserted (p : String) (paths : List String) (user : ℕ) (q : IngestQueue)
    (ids : List String) (q1 : IngestQueue) : Type 0 where
  pub rows : List IngestJob
  pub inserted : q1.jobs ≡ q.jobs ++ rows
  pub named : map (λ j. j.id) rows ≡ ids
  pub sources : map (λ j. j.source_path) rows ≡ paths
  pub fresh : All (λ j. (j.status ≡ pending) × (j.project_id ≡ p) × (j.created_by ≡ user)) rows

append_nil : {A : Type 0} (xs : List A) → xs ++ [] ≡ xs
append_nil [] = refl
append_nil (x ∷ xs) = ap (λ l. x ∷ l) (append_nil xs)

module _ (uuid4 : ℕ → String) where
  new_jobs-sources :
      (p : String) (paths : List String) (user now n : ℕ)
      → map (λ j. j.source_path) (new_jobs uuid4 p paths user now n) ≡ paths
  unfolding new_jobs new_job
  new_jobs-sources p [] user now n = refl
  new_jobs-sources p (x ∷ xs) user now n = ap (λ l. x ∷ l) (new_jobs-sources p xs user now (suc n))

  new_jobs-AllFresh :
      (p : String) (paths : List String) (user now n : ℕ)
      → All
          (λ j. (j.status ≡ pending) × (j.project_id ≡ p) × (j.created_by ≡ user))
          (new_jobs uuid4 p paths user now n)
  unfolding new_jobs new_job
  new_jobs-AllFresh p [] user now n = tt
  new_jobs-AllFresh p (x ∷ xs) user now n =
      ((refl, refl, refl), new_jobs-AllFresh p xs user now (suc n))

  schedule_each-jobs :
      (dir : String) (js : List IngestJob) (q : IngestQueue)
      → (schedule_each uuid4 dir js q).jobs ≡ q.jobs
  unfolding schedule_each schedule_task
  schedule_each-jobs dir [] q = refl
  schedule_each-jobs dir (j ∷ js) q = schedule_each-jobs dir js (schedule_task (task_of j dir 0) q)

  either_jobs :
      (b : Bool) (x y : IngestQueue) → y.jobs ≡ x.jobs → (if b then x else y).jobs ≡ x.jobs
  either_jobs true x y e = refl
  either_jobs false x y e = e

  pub enqueue_many-Inserted :
      (p dir : String) (paths : List String) (user : ℕ) (q : IngestQueue)
      → let r = enqueue_many uuid4 p dir paths user q in Inserted p paths user q r.0 r.1
  unfolding enqueue_many
  enqueue_many-Inserted p dir [] user q = record {
    rows = [];
    inserted = sym (append_nil q.jobs);
    named = refl;
    sources = refl;
    fresh = tt;
  }
  enqueue_many-Inserted p dir (x ∷ xs) user q = record {
    rows = rows;
    inserted =
        either_jobs (is_project_paused p q1) q1 (schedule_each uuid4 dir rows q1)
          (schedule_each-jobs dir rows q1);
    named = refl;
    sources = new_jobs-sources p (x ∷ xs) user q.clock q.drawn;
    fresh = new_jobs-AllFresh p (x ∷ xs) user q.clock q.drawn;
  }
    where
      rows : List IngestJob
      rows = new_jobs uuid4 p (x ∷ xs) user q.clock q.drawn

      q1 : IngestQueue
      q1 = record q { jobs = q.jobs ++ rows; drawn = q.drawn + length (x ∷ xs) }
