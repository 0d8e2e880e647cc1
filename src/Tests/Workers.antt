-- ===== src/Tests/Workers.antt =====
-- app/ingest/queue.py: two jobs of one project, the second one behind the lock of the first.
use llm_wiki_engine.Prelude.{ℕ, ◌≡◌, refl, String, [], ◌∷◌}
use llm_wiki_engine.Ingest.Queue.{IngestQueue, Task}
use llm_wiki_engine.Ingest.Queue.Workers.{
  acquire, lock_of, Server, fresh_server, spawn, enters, lines_up, spawns, Reach, start, later,
}
use llm_wiki_engine.Ingest.Queue.Workers.Exclusion.{Reach-exclusive}
use llm_wiki_engine.Ingest.Queue.Workers.Serial.{Running, began, Behaves, Runs, Reach-Runs}

abbrev task_named : String → Task
task_named job_id = record {
  job_id = job_id;
  project_id = "p";
  project_dir = "/p";
  source_path = "a.md";
  resume_step = 0;
}

abbrev tables : IngestQueue
tables = record { jobs = []; projects = []; tasks = []; clock = 1; drawn = 0 }

abbrev two_tasks : Server
two_tasks = spawn (task_named "b") (spawn (task_named "a") (fresh_server tables (task_named "")))

two_tasks-Reach : Reach tables (task_named "") two_tasks
two_tasks-Reach = later (later start (spawns (task_named "a"))) (spawns (task_named "b"))

-- The first task has the lock, and the second one waits.
Reach-exclusive_example : ◌≡◌ {A = ℕ} 0 0
Reach-exclusive_example =
    Reach-exclusive (later (later two_tasks-Reach (enters 0 refl refl refl)) (lines_up 1 refl)) 0 0
      refl refl refl

Reach-Runs_example :
    (a : Running) × Behaves a (began "p" 0 ∷ [])
    × Runs (acquire 0 (lock_of two_tasks 0) two_tasks) a
unfolding two_tasks-Reach
Reach-Runs_example = Reach-Runs (later two_tasks-Reach (enters 0 refl refl refl))
