-- ===== src/Ingest/Pipeline/Steps.antt =====
-- app/ingest/pipeline.py: the two steps that ask the model, or take its answers from the checkpoint.
use llm_wiki_engine.Prelude.{
  Bool-cases, inl, inr, ◌⊎◌, ℕ, suc, min, max, ◌≤◌, ◌≡◌, ◌≢◌, refl, Bool, true, false, Option, none,
  some, [], ◌∷◌, arith, ltb, if◌then◌else◌,
}
use llm_wiki_engine.Text.{Text, strip, is_empty}
use llm_wiki_engine.Ingest.Pipeline.{
  Run, State, Checkpoint, Saving, saved, untouched, truncated, Failure, checkpoint_failed,
  save_checkpoint, set_step, Ending, missing_checkpoint, written, job_paused, raised, Part, goes_on,
  ends, ensure_not_paused, save_answer, ask, analysis_step, generation_step, run_then, cp_step,
  cp_analysis, cp_generation,
}

-- The texts that a stored step promises are there.
abbrev pub IsSound : Option Checkpoint → Type 0
IsSound none = Unit
IsSound (some c) =
    (1 ≤ c.step → is_empty c.analysis ≡ false) × (2 ≤ c.step → is_empty c.generation ≡ false)

-- The checkpoint holds the texts of every step that the job's row counts; step 3 needs none.
abbrev pub IsResumable : State → Type 0
IsResumable s = IsSound s.checkpoint × (min s.job_step 2 ≤ cp_step s.checkpoint)

-- A write of the checkpoint truncated its file and failed.
abbrev pub IsTorn : Run → Failure → State → Type 0
IsTorn run e s =
    (e ≡ checkpoint_failed)
    × (s.checkpoint ≡ none)
    × ((step : ℕ) × (run.checkpoint_saving step ≡ truncated))

-- An end that leaves the job resumable, unless its checkpoint was torn, and that no missing
-- checkpoint brought about.
abbrev pub IsGraceful : Run → Ending → State → Type 0
IsGraceful run (written ws) s = Unit
IsGraceful run job_paused s = IsResumable s
IsGraceful run (raised e) s = (e ≢ missing_checkpoint) × (IsResumable s ⊎ IsTorn run e s)

strip_of_empty : (t : Text) → is_empty (strip t) ≡ false → is_empty t ≡ false
unfolding strip
strip_of_empty [] h = h
strip_of_empty (c ∷ t) h = refl

sound_analysis :
    (c : Option Checkpoint) → IsSound c → 1 ≤ cp_step c → is_empty (cp_analysis c) ≡ false
sound_analysis none h k = ground arith
sound_analysis (some c) h k = h.0 k

sound_generation :
    (c : Option Checkpoint) → IsSound c → 2 ≤ cp_step c → is_empty (cp_generation c) ≡ false
sound_generation none h k = ground arith
sound_generation (some c) h k = h.1 k

module _ (run : Run) where
  -- Step 1 leaves a checkpoint of its step at least.
  abbrev pub After : ℕ → Part Text × State → Type 0
  After n (goes_on a, s) = (is_empty a ≡ false) × IsResumable s × (n ≤ cp_step s.checkpoint)
  After n (ends e, s) = IsGraceful run e s

  abbrev first_checkpoint : Text → Checkpoint
  first_checkpoint a = record { step = 1; analysis = a; generation = [] }

  abbrev second_checkpoint : Text → Text → Checkpoint
  second_checkpoint analysis g = record { step = 2; analysis = analysis; generation = g }

  save_checkpoint-After :
      (n : ℕ) (w : Saving) (c : Checkpoint) (a : Text) (s : State)
      → run.checkpoint_saving c.step ≡ w
      → is_empty a ≡ false
      → IsSound (some c)
      → n ≤ c.step
      → min s.job_step 2 ≤ c.step
      → IsResumable s
      → After n (save_checkpoint run w c a s)
  unfolding save_checkpoint set_step
  save_checkpoint-After n saved c a s e full sound enough row h =
      elim (Bool-cases (run.row_fails c.step)) [
        | inl q ↦ rw q (cc, inl (sound, row))
        | inr q ↦ rw q (full, (sound, omega arith), enough)
      ]
  save_checkpoint-After n untouched c a s e full sound enough row h = (cc, inl h)
  save_checkpoint-After n truncated c a s e full sound enough row h =
      (cc, inr (refl, refl, (c.step, e)))

  save_first :
      (a : Option Text) (s : State)
      → min s.job_step 2 ≤ 1
      → IsResumable s
      → After 1 (save_answer run a first_checkpoint s)
  unfolding save_answer
  save_first none s row h = (cc, inl h)
  save_first (some a) s row h = elim (Bool-cases (is_empty (strip a))) [
    | inl e ↦ rw e (cc, inl h)
    | inr e ↦
        let full = strip_of_empty a e in
        rw e (
          save_checkpoint-After 1 _ (first_checkpoint a) a s refl full
            ((λ k. full), λ k. absurd (omega (arith, k))) (omega arith) row h)
  ]

  save_second :
      (analysis : Text) (a : Option Text) (s : State)
      → is_empty analysis ≡ false
      → IsResumable s
      → After 2 (save_answer run a (second_checkpoint analysis) s)
  unfolding save_answer
  save_second analysis none s e h = (cc, inl h)
  save_second analysis (some a) s e h = elim (Bool-cases (is_empty (strip a))) [
    | inl q ↦ rw q (cc, inl h)
    | inr q ↦
        let full = strip_of_empty a q in
        rw q (
          save_checkpoint-After 2 _ (second_checkpoint analysis a) a s refl full
            ((λ k. e), λ k. full) (omega arith) (omega arith) h)
  ]

  After-if :
      (n : ℕ) (b : Bool) (x y : Part Text × State)
      → (b ≡ true → After n x)
      → (b ≡ false → After n y)
      → After n (if b then x else y)
  After-if n true x y h k = h refl
  After-if n false x y h k = k refl

  After-pause :
      (n : ℕ) (s : State) (f : State → Part Text × State)
      → IsResumable s
      → After n (f (record s { checks = suc s.checks }))
      → After n (run_then (ensure_not_paused run s) (λ ok. f))
  unfolding ensure_not_paused
  After-pause n s f h k = go (run.paused_at s.checks)
    where
      s1 : State
      s1 = record s { checks = suc s.checks }

      go :
          (b : Bool)
          → After n (
              run_then
                (if◌then◌else◌ {A = Part Bool × State} b (ends job_paused, s1) (goes_on true, s1))
                (λ ok. f))
      go true = h
      go false = k

  After-weaken : (m n : ℕ) (p : Part Text × State) → m ≤ n → After n p → After m p
  After-weaken m n (goes_on a, s) h k = (k.0, k.1, omega arith)
  After-weaken m n (ends e, s) h k = k

  pub analysis_After :
      (s : State) (n : ℕ)
      → IsResumable s
      → n ≡ max s.job_step (cp_step s.checkpoint)
      → After (max 1 (min n 2)) (analysis_step run s.checkpoint n s)
  unfolding analysis_step ask
  analysis_After s n h e =
      After-if (max 1 (min n 2)) (ltb n 1) _ _
        (λ r. After-weaken (max 1 (min n 2)) 1 _ (ground arith) (
          After-pause 1 s (save_answer run run.analyze first_checkpoint) h
            (save_first run.analyze (record s { checks = suc s.checks }) (ground (arith, r)) h)))
        (λ r.
          After-if (max 1 (min n 2)) (is_empty (cp_analysis s.checkpoint)) _ _
            (λ c. cc (c, sound_analysis s.checkpoint h.0 (ground arith)))
            (λ c. (c, h, ground arith)))

  generation_After :
      (cp : Option Checkpoint) (n : ℕ) (a : Text) (s : State)
      → IsSound cp
      → (ltb n 2 ≡ false → 2 ≤ cp_step cp)
      → (ltb n 2 ≡ false → 2 ≤ cp_step s.checkpoint)
      → is_empty a ≡ false
      → IsResumable s
      → After 2 (generation_step run cp n a s)
  unfolding generation_step ask
  generation_After cp n a s w k l e h =
      After-if 2 (ltb n 2) _ _
        (λ r.
          After-pause 2 s (save_answer run (run.generate a) (second_checkpoint a)) h
            (save_second a (run.generate a) (record s { checks = suc s.checks }) e h))
        (λ r.
          After-if 2 (is_empty (cp_generation cp)) _ _ (λ c. cc (c, sound_generation cp w (k r)))
            (λ c. (c, h, l r)))

  pub both_After :
      (cp : Option Checkpoint) (n : ℕ) (p : Part Text × State)
      → IsSound cp
      → (ltb n 2 ≡ false → 2 ≤ cp_step cp)
      → After (max 1 (min n 2)) p
      → After 2 (run_then p (generation_step run cp n))
  both_After cp n (ends e, s) w k h = h
  both_After cp n (goes_on a, s) w k h = generation_After cp n a s w k (λ r. ground arith) h.0 h.1
