-- ===== src/Ingest/Pipeline.antt =====
-- app/ingest/pipeline.py and cache.py: the ingest of one document, its checkpoint and its rollback.
-- The texts of the document and of the model's answers are given.
pub mod Restored
pub mod Rollback
pub mod Steps
pub mod Resume
pub mod Torn
use llm_wiki_engine.Prelude.{
  ℕ, suc, max, String, Bool, true, false, not, ◌&&◌, Option, none, some, List, [], ◌∷◌, ◌++◌, map,
  ltb, ◌==◌, if◌then◌else◌,
}
use llm_wiki_engine.Text.{Text, codes, strip, text_beq, is_empty}
use llm_wiki_engine.Ingest.Parser.{ParsedFileBlock}
use llm_wiki_engine.Ingest.Parser.Loop.{parse_file_blocks}
use llm_wiki_engine.Ingest.Writer.{Files, Outside, read_at, write_at, write_file_blocks}

-- The stored step with its texts; a text that the step has not made yet is empty.
pub record Checkpoint : Type 0 where
  pub step : ℕ
  pub analysis : Text
  pub generation : Text

-- The exceptions of the pipeline.
pub data Failure : Type 0 where
  model_failed empty_answer missing_checkpoint checkpoint_failed row_failed : Failure
  write_failed cache_failed remove_failed : Failure

-- How the ingest ends: with the written paths, by `JobPaused`, or by another exception.
pub data Ending : Type 0 where
  written : List Text → Ending
  job_paused : Ending
  raised : Failure → Ending

-- What ingest-cache.json says of the source: the hash of the content that was ingested last, if there
-- is one, or nothing, since the file is no JSON.
pub data Cache : Type 0 where
  entry : Option Text → Cache
  broken_cache : Cache

-- How a write of a JSON file ends: it is saved, or an exception leaves the old file, or an exception
-- leaves what was written after the file was truncated, which is no JSON.
pub data Saving : Type 0 where
  saved untouched truncated : Saving

-- The project's files, the checkpoint (none also if its file cannot be read), the cache, the step of the job's row, the pages that were embedded last, and the
-- number of pause checks so far.
pub record State : Type 0 where
  pub files : Files
  pub checkpoint : Option Checkpoint
  pub cached : Cache
  pub job_step : ℕ
  pub embedded : List Text
  pub checks : ℕ

-- What the pipeline is called with and what answers it: the identity of the source, the text of
-- the document, its hash, the answers of the two calls of the model (none if a call raises), what
-- the n-th pause check finds, how the checkpoint of a step is saved and whether its row cannot be
-- updated, whether the embedding raises, how the cache is saved, and whether the checkpoint's file
-- cannot be removed.
pub record Run : Type 0 where
  pub source : Text
  pub content : Text
  pub content_hash : Text
  pub analyze : Option Text
  pub generate : Text → Option Text
  pub paused_at : ℕ → Bool
  pub embedding_fails : Bool
  pub checkpoint_saving : ℕ → Saving
  pub row_fails : ℕ → Bool
  pub cache_saving : Saving
  pub remove_fails : Bool
  pub outside : Outside

-- A part of the pipeline returns a value or ends it.
pub data Part {ℓ} (A : Type ℓ) : Type ℓ where
  goes_on : A → Part A
  ends : Ending → Part A

-- What follows a part runs only if it does not end the pipeline.
abbrev pub run_then :
    {A B : Type 0} → Part A × State → (A → State → Part B × State) → Part B × State
run_then (goes_on a, s) f = f a s
run_then (ends e, s) f = (ends e, s)

abbrev pub finish_with :
    {A : Type 0} → Part A × State → (A → State → Ending × State) → Ending × State
finish_with (goes_on a, s) f = f a s
finish_with (ends e, s) f = (e, s)

abbrev pub cp_step : Option Checkpoint → ℕ
cp_step none = 0
cp_step (some c) = c.step

-- `checkpoint.get(...) if checkpoint else ""`
abbrev pub cp_analysis : Option Checkpoint → Text
cp_analysis none = []
cp_analysis (some c) = c.analysis

abbrev pub cp_generation : Option Checkpoint → Text
cp_generation none = []
cp_generation (some c) = c.generation

-- `_snapshot_targets`
abbrev pub snapshot_targets : (Text → Text) → List Text → Files → List (Text × Option Text)
snapshot_targets file_of [] files = []
snapshot_targets file_of (path ∷ paths) files =
    (file_of path, read_at (file_of path) files) ∷ snapshot_targets file_of paths files

-- `_restore_targets`
unfoldable pub restore_targets : List (Text × Option Text) → Files → Files
restore_targets [] files = files
restore_targets ((file, content) ∷ snapshot) files =
    restore_targets snapshot (write_at file content files)

module _ (run : Run) where
  -- `_ensure_not_paused`
  unfoldable pub ensure_not_paused : State → Part Bool × State
  ensure_not_paused s =
      let s1 = record s { checks = suc s.checks } in
      if run.paused_at s.checks then (ends job_paused, s1) else (goes_on true, s1)

  -- `_remove_checkpoint`, and the return behind it.
  unfoldable pub remove_checkpoint : List Text → State → Ending × State
  remove_checkpoint paths s =
      if run.remove_fails
      then (raised remove_failed, s)
      else (written paths, record s { checkpoint = none })

  -- `set_step`
  unfoldable pub set_step : Text → ℕ → State → Part Text × State
  set_step answer step s =
      if run.row_fails step
      then (ends (raised row_failed), s)
      else (goes_on answer, record s { job_step = step })

  -- `_save_checkpoint` and `set_step`
  unfoldable pub save_checkpoint : Saving → Checkpoint → Text → State → Part Text × State
  unfolding set_step
  save_checkpoint saved c answer s = set_step answer c.step (record s { checkpoint = some c })
  save_checkpoint untouched c answer s = (ends (raised checkpoint_failed), s)
  save_checkpoint truncated c answer s =
      (ends (raised checkpoint_failed), record s { checkpoint = none })

  -- An answer of the model must not be blank.
  unfoldable pub save_answer : Option Text → (Text → Checkpoint) → State → Part Text × State
  unfolding save_checkpoint
  save_answer none checkpoint s = (ends (raised model_failed), s)
  save_answer (some answer) checkpoint s =
      if is_empty (strip answer)
      then (ends (raised empty_answer), s)
      else save_checkpoint (run.checkpoint_saving (checkpoint answer).step) (checkpoint answer)
          answer s

  -- A step that calls the model.
  unfoldable pub ask : Option Text → (Text → Checkpoint) → State → Part Text × State
  ask answer checkpoint s = run_then (ensure_not_paused s) (λ ok. save_answer answer checkpoint)

  -- A step whose text is in the checkpoint.
  abbrev pub resume_from : Text → State → Part Text × State
  resume_from text s =
      if is_empty text then (ends (raised missing_checkpoint), s) else (goes_on text, s)

  -- Step 1, with the checkpoint as it was loaded.
  unfoldable pub analysis_step : Option Checkpoint → ℕ → State → Part Text × State
  analysis_step checkpoint effective_step s =
      if ltb effective_step 1
      then ask run.analyze (λ a. record { step = 1; analysis = a; generation = [] }) s
      else resume_from (cp_analysis checkpoint) s

  -- Step 2
  unfoldable pub generation_step : Option Checkpoint → ℕ → Text → State → Part Text × State
  generation_step checkpoint effective_step analysis s =
      if ltb effective_step 2
      then ask (run.generate analysis)
          (λ g. record { step = 2; analysis = analysis; generation = g }) s
      else resume_from (cp_generation checkpoint) s

  -- The embedding block, whose exceptions are logged; `JobPaused` is one of them.
  unfoldable pub embed_step : List Text → State → State
  embed_step paths s =
      let (check, s1) = ensure_not_paused s in
      elim check [
        | ends e ↦ s1
        | goes_on ok ↦ if run.embedding_fails then s1 else record s1 { embedded = paths }
      ]

  -- The end of the try block: `update_cache`, which reads the cache first, and the removal of the
  -- checkpoint.
  unfoldable pub finalize : List Text → Cache → Saving → State → Ending × State
  unfolding remove_checkpoint
  finalize paths broken_cache w s = (raised cache_failed, s)
  finalize paths (entry e) saved s =
      remove_checkpoint paths (record s { cached = entry (some run.content_hash) })
  finalize paths (entry e) untouched s = (raised cache_failed, s)
  finalize paths (entry e) truncated s = (raised cache_failed, record s { cached = broken_cache })

  -- The handler of the try block: a rollback of the files.
  unfoldable pub roll_back : List (Text × Option Text) → Ending × State → Ending × State
  roll_back snapshot (written paths, s) = (written paths, s)
  roll_back snapshot (job_paused, s) =
      (job_paused, record s { files = restore_targets snapshot s.files })
  roll_back snapshot (raised e, s) =
      (raised e, record s { files = restore_targets snapshot s.files })

  -- `set_step(3)` and what follows it in the try block.
  unfoldable pub after_write : List Text → State → Ending × State
  unfolding embed_step finalize
  after_write paths s =
      let s1 = embed_step paths (record s { job_step = 3 }) in
      if run.row_fails 3
      then (raised row_failed, s)
      else finalize paths s1.cached run.cache_saving s1

  -- After the snapshot: what the write left, the embedding, the cache, and the rollback.
  unfoldable pub conclude :
      List (Text × Option Text) → Option (List Text) × Files → State → Ending × State
  unfolding roll_back after_write
  conclude snapshot (none, files) s =
      roll_back snapshot (raised write_failed, record s { files = files })
  conclude snapshot (some paths, files) s =
      roll_back snapshot (after_write paths (record s { files = files }))

  unfoldable pub write_blocks : List ParsedFileBlock → State → Ending × State
  unfolding remove_checkpoint
  write_blocks [] s = remove_checkpoint [] s
  write_blocks (b ∷ bs) s =
      conclude (snapshot_targets run.outside.file_of (map (λ x. x.path) (b ∷ bs)) s.files)
        (write_file_blocks run.outside run.source (b ∷ bs) s.files) s

  -- From the generation on.
  unfoldable pub write_step : Text → State → Ending × State
  write_step generation s =
      finish_with (ensure_not_paused s) (λ ok. write_blocks (parse_file_blocks generation).blocks)

  -- From the load of the checkpoint on.
  unfoldable pub ingest_steps : ℕ → State → Ending × State
  ingest_steps resume_step s =
      let effective_step = max resume_step (cp_step s.checkpoint) in
      finish_with
        (run_then (analysis_step s.checkpoint effective_step s)
          (generation_step s.checkpoint effective_step))
        write_step

  abbrev pub is_current : Option Text → Bool
  is_current none = false
  is_current (some h) = text_beq h run.content_hash

  -- `check_cache`, and what follows it.
  unfoldable pub after_cache : Cache → ℕ → State → Ending × State
  unfolding remove_checkpoint
  after_cache broken_cache resume_step s = (raised cache_failed, s)
  after_cache (entry e) resume_step s =
      if is_current e then remove_checkpoint [] s else ingest_steps resume_step s

  -- From the parsed document on.
  unfoldable pub ingest_content : ℕ → State → Ending × State
  unfolding after_cache
  ingest_content resume_step s =
      if is_empty (strip run.content) then (written [], s) else after_cache s.cached resume_step s

  unfoldable pub auto_ingest : ℕ → State → Ending × State
  auto_ingest resume_step s = finish_with (ensure_not_paused s) (λ ok. ingest_content resume_step)
