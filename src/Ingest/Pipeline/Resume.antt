-- ===== src/Ingest/Pipeline/Resume.antt =====
-- app/ingest/pipeline.py: the whole of a resumed ingest.
use mathlib.Core.Path.{subst}
use llm_wiki_engine.Prelude.{
  sym, inl, suc, max, ◌≤◌, ◌≡◌, refl, Bool, true, false, Option, none, some, List, [], ◌∷◌, arith,
  if◌then◌else◌,
}
use llm_wiki_engine.Text.{Text, strip, is_empty}
use llm_wiki_engine.Ingest.Parser.{ParsedFileBlock}
use llm_wiki_engine.Ingest.Parser.Loop.{parse_file_blocks}
use llm_wiki_engine.Ingest.Writer.{Files}
use llm_wiki_engine.Ingest.Pipeline.{
  Run, State, Ending, written, job_paused, Part, goes_on, ends, ensure_not_paused, analysis_step,
  generation_step, embed_step, conclude, write_blocks, write_step, finish_with, run_then,
  ingest_steps, ingest_content, auto_ingest, raised, write_failed, remove_checkpoint, finalize,
  after_write, roll_back, after_cache, is_current, Cache, entry, broken_cache, Saving, saved,
  untouched, truncated, cp_step,
}
use llm_wiki_engine.Ingest.Pipeline.Steps.{
  IsSound, IsResumable, IsGraceful, After, analysis_After, both_After,
}

module _ (run : Run) where
  -- The embedding leaves the checkpoint and the row's step.
  embed_step-row :
      (paths : List Text) (s : State)
      → ((embed_step run paths s).checkpoint ≡ s.checkpoint)
        × ((embed_step run paths s).job_step ≡ s.job_step)
  unfolding embed_step ensure_not_paused
  embed_step-row paths s = ground arith

  IsGraceful-if :
      (b : Bool) (x y : Ending × State)
      → IsGraceful run x.0 x.1
      → IsGraceful run y.0 y.1
      → let r = if◌then◌else◌ {A = Ending × State} b x y in IsGraceful run r.0 r.1
  IsGraceful-if true x y h k = h
  IsGraceful-if false x y h k = k

  remove_checkpoint-IsGraceful :
      (paths : List Text) (s : State)
      → IsResumable s
      → let r = remove_checkpoint run paths s in IsGraceful run r.0 r.1
  unfolding remove_checkpoint
  remove_checkpoint-IsGraceful paths s h = IsGraceful-if run.remove_fails _ _ (cc, inl h) tt

  finalize-IsGraceful :
      (paths : List Text) (c : Cache) (w : Saving) (s : State)
      → IsResumable s
      → let r = finalize run paths c w s in IsGraceful run r.0 r.1
  unfolding finalize
  finalize-IsGraceful paths broken_cache w s h = (cc, inl h)
  finalize-IsGraceful paths (entry e) saved s h = remove_checkpoint-IsGraceful paths _ h
  finalize-IsGraceful paths (entry e) untouched s h = (cc, inl h)
  finalize-IsGraceful paths (entry e) truncated s h = (cc, inl h)

  after_write-IsGraceful :
      (paths : List Text) (s : State)
      → IsResumable s
      → 2 ≤ cp_step s.checkpoint
      → let r = after_write run paths s in IsGraceful run r.0 r.1
  unfolding after_write
  after_write-IsGraceful paths s h k =
      IsGraceful-if (run.row_fails 3) _ _ (cc, inl h)
        (finalize-IsGraceful paths _ run.cache_saving (embed_step run paths s1) (
          subst IsSound (sym (embed_step-row paths s1).0) h.0,
          rw ((embed_step-row paths s1).0, (embed_step-row paths s1).1) (omega arith),
        ))
    where
      s1 : State
      s1 = record s { job_step = 3 }

  roll_back-IsGraceful :
      (snapshot : List (Text × Option Text)) (r : Ending × State)
      → IsGraceful run r.0 r.1
      → let t = roll_back run snapshot r in IsGraceful run t.0 t.1
  unfolding roll_back
  roll_back-IsGraceful snapshot (written ws, s) h = tt
  roll_back-IsGraceful snapshot (job_paused, s) h = h
  roll_back-IsGraceful snapshot (raised e, s) h = h

  conclude-IsGraceful :
      (snapshot : List (Text × Option Text)) (w : Option (List Text) × Files) (s : State)
      → IsResumable s
      → 2 ≤ cp_step s.checkpoint
      → let r = conclude run snapshot w s in IsGraceful run r.0 r.1
  unfolding conclude
  conclude-IsGraceful snapshot (none, files) s h k =
      roll_back-IsGraceful snapshot (raised write_failed, record s { files = files }) (cc, inl h)
  conclude-IsGraceful snapshot (some paths, files) s h k =
      roll_back-IsGraceful snapshot _
        (after_write-IsGraceful paths (record s { files = files }) h k)

  write_blocks-IsGraceful :
      (bs : List ParsedFileBlock) (s : State)
      → IsResumable s
      → 2 ≤ cp_step s.checkpoint
      → let r = write_blocks run bs s in IsGraceful run r.0 r.1
  unfolding write_blocks
  write_blocks-IsGraceful [] s h k = remove_checkpoint-IsGraceful [] s h
  write_blocks-IsGraceful (b ∷ bs) s h k = conclude-IsGraceful _ _ s h k

  IsGraceful-pause :
      (s : State) (f : State → Ending × State)
      → IsResumable s
      → (let r = f (record s { checks = suc s.checks }) in IsGraceful run r.0 r.1)
      → let r = finish_with (ensure_not_paused run s) (λ ok. f) in IsGraceful run r.0 r.1
  unfolding ensure_not_paused
  IsGraceful-pause s f h k = go (run.paused_at s.checks)
    where
      s1 : State
      s1 = record s { checks = suc s.checks }

      go :
          (b : Bool)
          → let r =
              finish_with
                (if◌then◌else◌ {A = Part Bool × State} b (ends job_paused, s1) (goes_on true, s1))
                (λ ok. f) in
            IsGraceful run r.0 r.1
      go true = h
      go false = k

  write_step-IsGraceful :
      (p : Part Text × State)
      → After run 2 p
      → let r = finish_with p (write_step run) in IsGraceful run r.0 r.1
  unfolding write_step
  write_step-IsGraceful (ends e, s) h = h
  write_step-IsGraceful (goes_on g, s) h =
      IsGraceful-pause s (write_blocks run (parse_file_blocks g).blocks) h.1 (
        write_blocks-IsGraceful (parse_file_blocks g).blocks (record s { checks = suc s.checks })
          h.1 h.2)

  ingest_steps-IsGraceful :
      (s : State) → IsResumable s → let r = ingest_steps run s.job_step s in IsGraceful run r.0 r.1
  unfolding ingest_steps
  ingest_steps-IsGraceful s h =
      let n = max s.job_step (cp_step s.checkpoint) in
      write_step-IsGraceful
        (run_then (analysis_step run s.checkpoint n s) (generation_step run s.checkpoint n))
        (both_After run s.checkpoint n (analysis_step run s.checkpoint n s) h.0 (λ r. ground arith)
          (analysis_After run s n h refl))

  after_cache-IsGraceful :
      (c : Cache) (s : State)
      → IsResumable s
      → let r = after_cache run c s.job_step s in IsGraceful run r.0 r.1
  unfolding after_cache
  after_cache-IsGraceful broken_cache s h = (cc, inl h)
  after_cache-IsGraceful (entry e) s h =
      IsGraceful-if (is_current run e) _ _ (remove_checkpoint-IsGraceful [] s h)
        (ingest_steps-IsGraceful s h)

-- A job whose checkpoint holds the texts of the steps that its row counts resumes: the ingest from
-- the row's step never fails for a missing checkpoint. If it is paused or fails for another
-- reason, it leaves the row and the checkpoint so again, unless it fails because a write of the
-- checkpoint truncated its file; the checkpoint is then gone.
pub auto_ingest-IsGraceful :
    (run : Run) (s : State)
    → IsResumable s
    → let r = auto_ingest run s.job_step s in IsGraceful run r.0 r.1
unfolding auto_ingest ingest_content
auto_ingest-IsGraceful run s h = IsGraceful-pause run s (ingest_content run s.job_step) h (
    IsGraceful-if run (is_empty (strip run.content)) _ _ tt
      (after_cache-IsGraceful run s.cached (record s { checks = suc s.checks }) h))
