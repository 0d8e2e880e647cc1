-- ===== src/Ingest/Pipeline/Rollback.antt =====
-- The files and the cache after an ingest that does not succeed.
use llm_wiki_engine.Prelude.{
  ◌≡◌, refl, sym, ◌∙◌, ap, Bool, true, false, Option, none, some, List, [], ◌∷◌, map, arith,
  contains, Bool-cases, inl, inr, ◌⊎◌, if◌then◌else◌, ℕ, max, ltb,
}
use llm_wiki_engine.Text.{Text, strip, is_empty}
use llm_wiki_engine.Ingest.Parser.{ParsedFileBlock}
use llm_wiki_engine.Ingest.Parser.Loop.{parse_file_blocks}
use llm_wiki_engine.Ingest.Writer.{text_eq, Files, write_file_blocks, read_text, read_at}
use llm_wiki_engine.Ingest.Pipeline.{
  Run, State, Ending, written, job_paused, raised, Part, goes_on, ends, snapshot_targets,
  restore_targets, ensure_not_paused, embed_step, conclude, write_blocks, write_step, finish_with,
  ingest_content, after_cache, is_current, remove_checkpoint, finalize, roll_back, after_write,
  save_checkpoint, set_step, Cache, entry, broken_cache, Saving, saved, untouched, truncated,
  Failure, model_failed, empty_answer, missing_checkpoint, checkpoint_failed, row_failed,
  write_failed, cache_failed, remove_failed, cp_analysis, cp_generation, analysis_step,
  generation_step, ingest_steps, auto_ingest, run_then, cp_step, Checkpoint, ask, save_answer,
}
use llm_wiki_engine.Ingest.Pipeline.Restored.{
  write_file_blocks_other, restore_snapshot, KeepsFiles, Keeps, contains-files_of,
}

module _ (run : Run) where
  -- The cache after an exception: as before, unless the write of the cache itself truncated its
  -- file, or the removal of the checkpoint behind that write failed.
  abbrev pub CacheAfter : State → State → Failure → Type 0
  CacheAfter s s1 cache_failed =
      (s1.cached ≡ s.cached) ⊎ ((run.cache_saving ≡ truncated) × (s1.cached ≡ broken_cache))
  CacheAfter s s1 remove_failed =
      (s1.cached ≡ s.cached)
      ⊎ ((run.remove_fails ≡ true) × (s1.cached ≡ entry (some run.content_hash)))
  CacheAfter s s1 _ = s1.cached ≡ s.cached

  -- What an ingest that does not return has to keep.
  abbrev pub Undone : State → Ending × State → Type 0
  Undone s (written ws, s1) = Unit
  Undone s (job_paused, s1) = Keeps s s1
  Undone s (raised e, s1) = KeepsFiles s s1 × CacheAfter s s1 e

  kept_cache : (s s1 : State) (e : Failure) → s1.cached ≡ s.cached → CacheAfter s s1 e
  kept_cache s s1 model_failed h = h
  kept_cache s s1 empty_answer h = h
  kept_cache s s1 missing_checkpoint h = h
  kept_cache s s1 checkpoint_failed h = h
  kept_cache s s1 row_failed h = h
  kept_cache s s1 write_failed h = h
  kept_cache s s1 cache_failed h = inl h
  kept_cache s s1 remove_failed h = inl h

  later_cache :
      (s s1 s2 : State) (e : Failure)
      → s1.cached ≡ s.cached
      → CacheAfter s1 s2 e
      → CacheAfter s s2 e
  later_cache s s1 s2 model_failed h k = k ∙ h
  later_cache s s1 s2 empty_answer h k = k ∙ h
  later_cache s s1 s2 missing_checkpoint h k = k ∙ h
  later_cache s s1 s2 checkpoint_failed h k = k ∙ h
  later_cache s s1 s2 row_failed h k = k ∙ h
  later_cache s s1 s2 write_failed h k = k ∙ h
  later_cache s s1 s2 cache_failed h (inl k) = inl (k ∙ h)
  later_cache s s1 s2 cache_failed h (inr k) = inr k
  later_cache s s1 s2 remove_failed h (inl k) = inl (k ∙ h)
  later_cache s s1 s2 remove_failed h (inr k) = inr k

  Undone-if :
      (s : State) (b : Bool) (x y : Ending × State)
      → (b ≡ true → Undone s x)
      → Undone s y
      → Undone s (if b then x else y)
  Undone-if s true x y h k = h refl
  Undone-if s false x y h k = k

  Keeps-if :
      {A : Type 0} (s : State) (b : Bool) (x y : Part A × State)
      → Keeps s x.1
      → Keeps s y.1
      → Keeps s (if b then x else y).1
  Keeps-if s true x y h k = h
  Keeps-if s false x y h k = k

  Keeps-Undone : (s s1 : State) (r : Ending × State) → Keeps s s1 → Undone s1 r → Undone s r
  Keeps-Undone s s1 (written ws, s2) h k = tt
  Keeps-Undone s s1 (job_paused, s2) h k = ((λ f. k.0 f ∙ h.0 f), k.1 ∙ h.1)
  Keeps-Undone s s1 (raised e, s2) h k = ((λ f. k.0 f ∙ h.0 f), later_cache s s1 s2 e h.1 k.1)

  Undone-finish_with :
      {A : Type 0} (s : State) (p : Part A × State) (f : A → State → Ending × State)
      → Keeps s p.1
      → ((a : A) (s1 : State) → Undone s1 (f a s1))
      → Undone s (finish_with p f)
  Undone-finish_with s (goes_on a, s1) f h k = Keeps-Undone s s1 (f a s1) h (k a s1)
  Undone-finish_with s (ends (written ws), s1) f h k = tt
  Undone-finish_with s (ends job_paused, s1) f h k = h
  Undone-finish_with s (ends (raised e), s1) f h k = (h.0, kept_cache s s1 e h.1)

  Keeps-run_then :
      {A B : Type 0} (s : State) (p : Part A × State) (f : A → State → Part B × State)
      → Keeps s p.1
      → ((a : A) (s1 : State) → Keeps s1 (f a s1).1)
      → Keeps s (run_then p f).1
  Keeps-run_then s (goes_on a, s1) f h k = ((λ g. (k a s1).0 g ∙ h.0 g), (k a s1).1 ∙ h.1)
  Keeps-run_then s (ends e, s1) f h k = h

  unchanged : (s : State) → Keeps s s
  unchanged s = ((λ f. refl), refl)

  remove_checkpoint-Undone :
      (paths : List Text) (s : State) → Undone s (remove_checkpoint run paths s)
  unfolding remove_checkpoint
  remove_checkpoint-Undone paths s =
      Undone-if s run.remove_fails _ _ (λ e. ((λ f. refl), inl refl)) tt

  embed_step-keeps :
      (paths : List Text) (s : State)
      → ((embed_step run paths s).cached ≡ s.cached) × ((embed_step run paths s).files ≡ s.files)
  unfolding embed_step ensure_not_paused
  embed_step-keeps paths s = ground arith

  -- What the try block leaves: the files that the write left, and a cache that a failure explains.
  abbrev Tried : State → Ending × State → Type 0
  Tried s (written ws, s1) = Unit
  Tried s (job_paused, s1) = (s1.files ≡ s.files) × (s1.cached ≡ s.cached)
  Tried s (raised e, s1) = (s1.files ≡ s.files) × CacheAfter s s1 e

  Tried-if :
      (s : State) (b : Bool) (x y : Ending × State)
      → (b ≡ true → Tried s x)
      → Tried s y
      → Tried s (if b then x else y)
  Tried-if s true x y h k = h refl
  Tried-if s false x y h k = k

  finalize-Tried :
      (paths : List Text) (c : Cache) (w : Saving) (s s1 : State)
      → run.cache_saving ≡ w
      → s1.files ≡ s.files
      → s1.cached ≡ s.cached
      → Tried s (finalize run paths c w s1)
  unfolding finalize remove_checkpoint
  finalize-Tried paths broken_cache w s s1 e h k = (h, inl k)
  finalize-Tried paths (entry x) saved s s1 e h k =
      Tried-if s run.remove_fails _ _ (λ q. (h, inr (q, refl))) tt
  finalize-Tried paths (entry x) untouched s s1 e h k = (h, inl k)
  finalize-Tried paths (entry x) truncated s s1 e h k = (h, inr (e, refl))

  after_write-Tried : (paths : List Text) (s : State) → Tried s (after_write run paths s)
  unfolding after_write
  after_write-Tried paths s = elim (Bool-cases (run.row_fails 3)) [
    | inl e ↦ rw e (refl, refl)
    | inr e ↦
        let s1 = record s { job_step = 3 } in
        rw e (
          finalize-Tried paths _ run.cache_saving s (embed_step run paths s1) refl
            (embed_step-keeps paths s1).1 (embed_step-keeps paths s1).0)
  ]

  roll_back-Undone :
      (paths : List Text) (files : Files) (s : State) (r : Ending × State)
      → ((f : Text)
          → contains (map run.outside.file_of paths) f ≡ false
          → read_at f files ≡ read_at f s.files)
      → Tried (record s { files = files }) r
      → Undone s (roll_back run (snapshot_targets run.outside.file_of paths s.files) r)
  unfolding roll_back
  roll_back-Undone paths files s (written ws, s1) h k = tt
  roll_back-Undone paths files s (job_paused, s1) h k = ((λ f. restored f), k.1)
    where
      restored :
          (f : Text)
          → read_at f
              (restore_targets (snapshot_targets run.outside.file_of paths s.files) s1.files)
            ≡ read_at f s.files
      restored f =
          restore_snapshot run.outside.file_of paths s.files s1.files f
            (λ c. ap (read_at f) k.0 ∙ h f c)
  roll_back-Undone paths files s (raised e, s1) h k =
      ((λ f. restored f), later_cache s (record s { files = files }) s1 e refl k.1)
    where
      restored :
          (f : Text)
          → read_at f
              (restore_targets (snapshot_targets run.outside.file_of paths s.files) s1.files)
            ≡ read_at f s.files
      restored f =
          restore_snapshot run.outside.file_of paths s.files s1.files f
            (λ c. ap (read_at f) k.0 ∙ h f c)

  conclude-Undone :
      (paths : List Text) (w : Option (List Text) × Files) (s : State)
      → ((f : Text)
          → contains (map run.outside.file_of paths) f ≡ false
          → read_at f w.1 ≡ read_at f s.files)
      → Undone s (conclude run (snapshot_targets run.outside.file_of paths s.files) w s)
  unfolding conclude
  conclude-Undone paths (none, files) s h =
      roll_back-Undone paths files s (raised write_failed, record s { files = files }) h
        (refl, refl)
  conclude-Undone paths (some ws, files) s h =
      roll_back-Undone paths files s _ h (after_write-Tried ws (record s { files = files }))

  write_blocks-Undone : (bs : List ParsedFileBlock) (s : State) → Undone s (write_blocks run bs s)
  unfolding write_blocks
  write_blocks-Undone [] s = remove_checkpoint-Undone [] s
  write_blocks-Undone (b ∷ bs) s =
      conclude-Undone (map (λ x. x.path) (b ∷ bs))
        (write_file_blocks run.outside run.source (b ∷ bs) s.files) s
        (λ f c. ap read_text (
          write_file_blocks_other run.outside run.source (b ∷ bs) s.files f
            (sym (contains-files_of run.outside (b ∷ bs) f) ∙ c)))

  Keeps-ensure_not_paused : (s : State) → Keeps s (ensure_not_paused run s).1
  unfolding ensure_not_paused
  Keeps-ensure_not_paused s =
      Keeps-if s (run.paused_at s.checks) _ _ ((λ f. refl), refl) ((λ f. refl), refl)

  write_step-Undone : (generation : Text) (s : State) → Undone s (write_step run generation s)
  unfolding write_step
  write_step-Undone generation s =
      Undone-finish_with s (ensure_not_paused run s) _ (Keeps-ensure_not_paused s)
        (λ ok s1. write_blocks-Undone (parse_file_blocks generation).blocks s1)

  Keeps-save_checkpoint :
      (w : Saving) (c : Checkpoint) (a : Text) (s : State) → Keeps s (save_checkpoint run w c a s).1
  unfolding save_checkpoint set_step
  Keeps-save_checkpoint saved c a s =
      Keeps-if s (run.row_fails c.step) _ _ ((λ f. refl), refl) ((λ f. refl), refl)
  Keeps-save_checkpoint untouched c a s = unchanged s
  Keeps-save_checkpoint truncated c a s = ((λ f. refl), refl)

  Keeps-save_answer :
      (a : Option Text) (c : Text → Checkpoint) (s : State) → Keeps s (save_answer run a c s).1
  unfolding save_answer
  Keeps-save_answer none c s = unchanged s
  Keeps-save_answer (some a) c s =
      Keeps-if s (is_empty (strip a)) _ _ (unchanged s) (Keeps-save_checkpoint _ (c a) a s)

  Keeps-ask : (a : Option Text) (c : Text → Checkpoint) (s : State) → Keeps s (ask run a c s).1
  unfolding ask
  Keeps-ask a c s =
      Keeps-run_then s (ensure_not_paused run s) _ (Keeps-ensure_not_paused s)
        (λ ok s1. Keeps-save_answer a c s1)

  Keeps-analysis_step :
      (cp : Option Checkpoint) (n : ℕ) (s : State) → Keeps s (analysis_step run cp n s).1
  unfolding analysis_step
  Keeps-analysis_step cp n s =
      Keeps-if s (ltb n 1) _ _ (Keeps-ask run.analyze _ s)
        (Keeps-if s (is_empty (cp_analysis cp)) _ _ ((λ f. refl), refl) ((λ f. refl), refl))

  Keeps-generation_step :
      (cp : Option Checkpoint) (n : ℕ) (a : Text) (s : State)
      → Keeps s (generation_step run cp n a s).1
  unfolding generation_step
  Keeps-generation_step cp n a s =
      Keeps-if s (ltb n 2) _ _ (Keeps-ask (run.generate a) _ s)
        (Keeps-if s (is_empty (cp_generation cp)) _ _ ((λ f. refl), refl) ((λ f. refl), refl))

  ingest_steps-Undone : (n : ℕ) (s : State) → Undone s (ingest_steps run n s)
  unfolding ingest_steps
  ingest_steps-Undone n s =
      let k = max n (cp_step s.checkpoint) in
      let first = analysis_step run s.checkpoint k s in
      let second = generation_step run s.checkpoint k in
      Undone-finish_with s (run_then first second) (write_step run)
        (Keeps-run_then s first second (Keeps-analysis_step s.checkpoint k s)
          (Keeps-generation_step s.checkpoint k))
        write_step-Undone

  after_cache-Undone : (c : Cache) (n : ℕ) (s : State) → Undone s (after_cache run c n s)
  unfolding after_cache
  after_cache-Undone broken_cache n s = ((λ f. refl), inl refl)
  after_cache-Undone (entry e) n s =
      Undone-if s (is_current run e) _ _ (λ q. remove_checkpoint-Undone [] s)
        (ingest_steps-Undone n s)

  ingest_content-Undone : (n : ℕ) (s : State) → Undone s (ingest_content run n s)
  unfolding ingest_content
  ingest_content-Undone n s =
      Undone-if s (is_empty (strip run.content)) _ _ (λ q. tt) (after_cache-Undone s.cached n s)

-- Whatever the model and the pause checks do, and whichever write fails: after an ingest that ends
-- with an exception, `JobPaused` included, every file of the project reads as before it, provided
-- that the rollback itself can read and write. The cache is as before too, but for two cases: the
-- write of the cache truncated its file and failed, which leaves no JSON; or the cache was written
-- and the checkpoint behind it could not be removed, which leaves the source noted as ingested.
pub auto_ingest-Undone :
    (run : Run) (resume_step : ℕ) (s : State) → Undone run s (auto_ingest run resume_step s)
unfolding auto_ingest
auto_ingest-Undone run resume_step s =
    Undone-finish_with run s (ensure_not_paused run s) _ (Keeps-ensure_not_paused run s)
      (λ ok s1. ingest_content-Undone run resume_step s1)
