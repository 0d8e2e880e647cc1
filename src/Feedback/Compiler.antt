-- ===== src/Feedback/Compiler.antt =====
-- app/feedback/compiler.py: the loop of the compiler agent on a working copy, and
-- `_apply_wiki_changes` of app/feedback/router.py, which replays its changes on the wiki. The turns
-- of the agent are given.
pub mod Copies
pub mod Listing
pub mod Replay
use llm_wiki_engine.Prelude.{
  ℕ, zero, suc, Bool, true, false, ◌||◌, Option, none, some, List, [], ◌∷◌, if◌then◌else◌,
}
use llm_wiki_engine.Feedback.WikiTools.{
  WikiPath, WikiFiles, Call, submit_changes, FileChange, escapes, put, execute_tool,
  collect_changes,
}

abbrev pub max_iterations : ℕ
max_iterations = 100

-- A turn of the agent: tool calls, a text without one, or neither.
pub data Turn : Type 0 where
  acts : List Call → Turn
  speaks : Turn
  silent : Turn

abbrev pub is_submit : Call → Bool
is_submit submit_changes = true
is_submit _ = false

module _ (refused : WikiFiles → WikiPath → Bool) where
  -- The calls of a turn: whether one submits, and the files.
  unfoldable pub run_calls : List Call → WikiFiles → Bool × WikiFiles
  run_calls [] files = (false, files)
  run_calls (call ∷ calls) files =
      let (submitted, files1) = run_calls calls (execute_tool refused call files).1 in
      (is_submit call || submitted, files1)

  -- After the loop: the changes, or none if there are none and the compiler raises.
  unfoldable pub after_loop : WikiFiles → WikiFiles → Option (List FileChange) × WikiFiles
  after_loop original files =
      (elim (collect_changes original files) [ [] ↦ none | c ∷ cs ↦ some (c ∷ cs) ], files)

  -- `_agent_loop` from its n-th iteration on, with the working copy that it leaves.
  unfoldable pub agent_loop :
      (ℕ → Turn) → WikiFiles → ℕ → ℕ → WikiFiles → Option (List FileChange) × WikiFiles
  agent_loop turns original zero n files = after_loop original files
  agent_loop turns original (suc left) n files = elim (turns n) [
    | silent ↦ after_loop original files
    | speaks ↦ agent_loop turns original left (suc n) files
    | acts calls ↦
        let (submitted, files1) = run_calls calls files in
        let rest = agent_loop turns original left (suc n) files1 in
        if submitted then (some (collect_changes original files1), files1) else rest
  ]

  -- `run_compiler`, whose working copy starts as the wiki.
  unfoldable pub run_compiler : (ℕ → Turn) → WikiFiles → Option (List FileChange) × WikiFiles
  run_compiler turns original = agent_loop turns original max_iterations 0 original

-- The loop of `_apply_wiki_changes`, on texts of a working copy, which have no carriage returns, so
-- that the next read returns what was written; none if it raises, after which git restores the wiki.
unfoldable pub apply_changes : List FileChange → WikiFiles → Option WikiFiles
apply_changes [] files = some files
apply_changes (ch ∷ changes) files =
    let rest = apply_changes changes (put ch.path ch.new_content files) in
    if escapes ch.path then none else rest
