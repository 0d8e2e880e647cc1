-- ===== src/Lib.antt =====
-- The core of the wiki engine: the ingest of documents into wiki pages, the chunks of pages that are
-- embedded, the feedback loop that repairs the wiki, and the turns of the agents that answer from it.
--
-- A document becomes a job of `IngestQueue` (app/ingest/queue.py). `_execute` runs `auto_ingest`
-- (app/ingest/pipeline.py) on it, which asks the model twice, with a checkpoint after each answer,
-- splits the second answer into FILE blocks (app/ingest/parser.py), writes them into the project
-- (app/ingest/writer.py), embeds the pages (app/embedding/service.py, after app/embedding/chunker.py
-- cut them) and notes the source in a cache (app/ingest/cache.py). The links of the pages make a graph
-- (app/wiki/graph.py). An answer of an agent that needed raw files starts a feedback
-- task (app/feedback/queue.py): an evaluator judges it (app/feedback/evaluator.py), a compiler
-- proposes a change, and a user reviews it (app/feedback/service.py, app/feedback/router.py).
--
-- Which file models what:
--   Prelude: Boolean tests, lists, `sorted`. Text: strings as lists of code points, with the
--   methods of `str` that the program calls.
--   Ingest/Queue: the job table, the pause flags, the task table and the clock in one record; a
--   method of `IngestQueue` is a function from the queue to the queue. Ingest/Queue/Control pauses
--   and resumes, Ingest/Queue/Enqueue creates and recovers jobs, Ingest/Queue/Run is `_execute`.
--   Ingest/Parser and Ingest/Parser/Loop: `is_safe_ingest_path`, the line patterns and the loop of
--   `parse_file_blocks`, whose variables are the fields of `ParseState`.
--   Ingest/Writer: the merge of frontmatters and pages, and the loop of writes.
--   Ingest/Pipeline: `auto_ingest`, phase by phase, on the project's files, the checkpoint, the
--   cache and the step of the row, with the writes of these that fail.
--   Embedding/Chunker: `chunk_markdown`. Embedding/Service: `embed_pages` of app/embedding/service.py,
--   on a table of LanceDB, an argument with its laws in Embedding/Service/Upsert.
--   Feedback/Service: the transition table, the operations on a task and the handlers that change
--   one. Feedback/Queue: trigger, evaluation and repair. Feedback/Evaluator: the consistency check
--   and the override of a verdict. Feedback/WikiTools: the working copy of the compiler agent, a list
--   of files by path (app/feedback/wiki_tools.py). Feedback/Compiler: the agent's loop
--   (app/feedback/compiler.py) and `_apply_wiki_changes` of app/feedback/router.py.
--   Ingest/Files: the listing of sources. Ingest/Files/Paths names a source and checks chosen files,
--   Ingest/Files/Selection filters, sorts and pages items, Ingest/Files/Status gives each source the
--   status of its jobs or of the cache, Ingest/Files/Records lists the tabs of compile records. A set
--   is a list; where its order could show, the code sorts.
--   Ingest/Queue/Workers: the tasks of `_run_job` and the locks, as a step relation, and in its child
--   Serial the executor that they implement.
--   Ingest/EnqueueTasks and Ingest/EnqueueService: a request to compile files, from its selection to
--   the jobs of the queue, with its progress.
--   Agents/Messages and Agents/Compress: the messages of a turn and app/agents/context_compress.py,
--   whose indices into the messages are the parts that they cut. Agents/Turn: `run_agent_turn` of
--   app/agents/orchestrator.py; what follows a step is an argument of the step.
--   Llm: the answers and the retries of app/llm/client.py.
--   Wiki/Frontmatter and Wiki/Graph: app/wiki/frontmatter.py and app/wiki/graph.py; the dict of nodes
--   is a list in the order of its keys.
--   Tests: the theorems at concrete data.
--
-- Each method between two awaits of the database is one step of the model. What runs beside a job is
-- given to `execute` with the two calls that wait for long, the ingest and the publication to git
-- (app/projects/git_sync.py); the run of a job and the pipeline are modelled on separate states.
-- Numbers are natural numbers; positions in a text and retry counts never become negative in the
-- code. `execute` counts its calls of itself, and is run with three of them, one more than
-- `MAX_RETRIES`. The loop of `chunk_markdown` has the length of the text as fuel, since each round
-- moves by at least MIN_CHUNK_SIZE.
-- The loop of the compiler agent has its own bound, MAX_ITERATIONS, and the turn of an agent has
-- max_tool_calls + 2 rounds.
--
-- Parameters: PyYAML, what the models answer, what the disk does with a write of a page, of a
-- checkpoint and of the cache, which file a path names, where the system refuses to create one,
-- `uuid4`, the pause checks, and the failures of the embedding, of the rows and of the removal of a
-- checkpoint. For the listing: the file system, `str.lower`, `fnmatchcase` and the hash of a document.
-- For the store of the embeddings: LanceDB, whose operations may raise, and the vectors of LiteLLM.
-- For the agents: the tools, `json`, the test for a lost client, and the reading of a replacement by
-- `re.sub`; the products of a size and a threshold are given as numbers of tokens.
-- Reads of files, and the writes of a rollback, are taken to succeed, but for the pages of an
-- embedding. A read in text mode makes each line end a line feed: the pipeline's files are as on the
-- disk, those of the working copy as read. Exceptions of PyYAML other than those for broken YAML are
-- modelled where pages are merged, not for the graph. JSON columns are abstract texts.
--
-- Not modelled: the searching tools of the compiler agent, the walk of source trees and of the wiki,
-- the staging of copies, the lookup of page names, the routers except for the feedback handlers,
-- search, chat, the tools of agents, the calls of LiteLLM and the debug log, git, the case index, the
-- runtime bundles and the application shell.
pub mod Prelude
pub mod Text
pub mod Ingest
pub mod Embedding
pub mod Feedback
pub mod Llm
pub mod Wiki
pub mod Agents
pub mod Tests
