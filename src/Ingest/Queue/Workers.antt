-- ===== src/Ingest/Queue/Workers.antt =====
-- app/ingest/queue.py: the asyncio tasks of `_run_job`, which wait for the lock of their project, and
-- the steps between which the event loop may switch.
pub mod Exclusion
pub mod Serial
use llm_wiki_engine.Prelude.{
  ℕ, suc, String, ◌≡◌, Bool, true, false, not, List, [], ◌∷◌, ◌++◌, filter, ◌==◌, nat_eq, string_eq,
  if◌then◌else◌,
}
use llm_wiki_engine.Ingest.Queue.{IngestQueue, Task, is_paused, schedule_task, pop_task}

-- Where the coroutine of a task stands: not created, created but not run, waiting for the lock,
-- holding it in `_wait_until_resumed`, holding it in `_execute`, or over.
pub data Stage : Type 0 where
  absent created waiting polling executing over : Stage

abbrev pub holds : Stage → Bool
holds polling = true
holds executing = true
holds _ = false

abbrev pub waits : Stage → Bool
waits created = true
waits waiting = true
waits _ = false

-- An `asyncio.Lock`: whether it is held, and the tasks that wait for it, the first one in front. A
-- task that finds it free while others wait, waits behind them.
pub record Lock : Type 0 where
  pub locked : Bool
  pub waiters : List ℕ

-- The queue, its locks by project (a new lock is free), and the tasks by the order of creation.
pub record Server : Type 0 where
  pub queue : IngestQueue
  pub locks : String → Lock
  pub task : ℕ → Task
  pub stage : ℕ → Stage
  pub started : ℕ

abbrev pub project_of : Server → ℕ → String
project_of s i = (s.task i).project_id

abbrev pub lock_of : Server → ℕ → Lock
lock_of s i = s.locks (project_of s i)

abbrev pub set_stage : ℕ → Stage → Server → Server
set_stage i x s = record s { stage = λ j. if i == j then x else s.stage j }

abbrev pub set_lock : String → Lock → Server → Server
set_lock p l s = record s { locks = λ q. if p == q then l else s.locks q }

-- `async with lock`: the lock is taken, or the task lines up.
abbrev pub taken : Lock → Lock
taken l = record l { locked = true }

abbrev pub released : Lock → Lock
released l = record l { locked = false }

-- One task gets the lock.
abbrev pub acquire : ℕ → Lock → Server → Server
acquire i l s = set_stage i polling (set_lock (project_of s i) (taken l) s)

-- The task is over: `async with` releases the lock, and the done callback forgets the task.
abbrev pub end_task : ℕ → Server → Server
end_task i s = record (set_stage i over (set_lock (project_of s i) (released (lock_of s i)) s)) {
  queue = record s.queue { tasks = pop_task (s.task i).job_id s.queue.tasks };
}

-- A task that did not hold the lock is cancelled.
abbrev pub drop_task : ℕ → Server → Server
drop_task i s =
    record (set_stage i over (
      set_lock (project_of s i)
        (record {
          locked = (lock_of s i).locked;
          waiters = filter (λ j. not (j == i)) (lock_of s i).waiters;
        })
        s)) { queue = record s.queue { tasks = pop_task (s.task i).job_id s.queue.tasks } }

-- `_schedule_task`
abbrev pub spawn : Task → Server → Server
spawn t s = record s {
  queue = schedule_task t s.queue;
  task = λ j. if s.started == j then t else s.task j;
  stage = λ j. if s.started == j then created else s.stage j;
  started = suc s.started;
}

pub data Step : Server → Server → Type 0 where
  -- `_schedule_task` creates a task.
  spawns : {s : Server} (t : Task) → Step s (spawn t s)
  -- The rest of the server changes the tables.
  changes : {s : Server} (q : IngestQueue) → Step s (record s { queue = q })
  -- A new task finds the lock free, or not.
  enters :
      {s : Server} (i : ℕ)
      → s.stage i ≡ created
      → (lock_of s i).locked ≡ false
      → (lock_of s i).waiters ≡ []
      → Step s (acquire i (lock_of s i) s)
  lines_up :
      {s : Server} (i : ℕ)
      → s.stage i ≡ created
      → Step s (
          set_stage i waiting (
            set_lock
              (project_of s i)
              (record (lock_of s i) { waiters = (lock_of s i).waiters ++ i ∷ [] })
              s))
  -- The first that waits gets a lock that was released.
  wakes :
      {s : Server} (i : ℕ) (rest : List ℕ)
      → s.stage i ≡ waiting
      → (lock_of s i).locked ≡ false
      → (lock_of s i).waiters ≡ i ∷ rest
      → Step s (acquire i (record { locked = false; waiters = rest }) s)
  -- A poll that finds the job not paused starts `_execute`.
  executes :
      {s : Server} (i : ℕ)
      → s.stage i ≡ polling
      → is_paused (s.task i).job_id s.queue ≡ false
      → Step s (set_stage i executing s)
  -- `_execute` returns or raises, or a task that holds the lock is cancelled.
  ends : {s : Server} (i : ℕ) → holds (s.stage i) ≡ true → Step s (end_task i s)
  -- `stop` cancels a task that was not run yet or waits.
  drops : {s : Server} (i : ℕ) → waits (s.stage i) ≡ true → Step s (drop_task i s)

abbrev pub free_lock : Lock
free_lock = record { locked = false; waiters = [] }

-- A server on some tables, before any task.
abbrev pub fresh_server : IngestQueue → Task → Server
fresh_server q t = record {
  queue = q;
  locks = λ p. free_lock;
  task = λ i. t;
  stage = λ i. absent;
  started = 0;
}

pub data Reach (q : IngestQueue) (t : Task) : Server → Type 0 where
  start : Reach q t (fresh_server q t)
  later : {s s' : Server} → Reach q t s → Step s s' → Reach q t s'
