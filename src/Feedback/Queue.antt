-- ===== src/Feedback/Queue.antt =====
-- app/feedback/queue.py: the pipeline that evaluates an answer and repairs the wiki. What the
-- evaluator and the compiler agents return, or that they raise, is given.
pub mod Outcomes
use llm_wiki_engine.Prelude.{
  ℕ, String, Bool, true, false, not, ◌&&◌, ◌||◌, Option, none, some, List, [], ◌∷◌, ◌++◌, any,
  contains, ◌==◌, string_eq, if◌then◌else◌,
}
use llm_wiki_engine.Feedback.Service.{
  FeedbackTask, Result, ok, err, ◌>>=◌, set_evaluator_result, set_repair_candidate,
  mark_compile_failed, enter_repair, create_feedback_task,
}

-- A tool trace, by the name of its tool and its text.
pub record Trace : Type 0 where
  pub name : String
  pub text : String

abbrev pub wiki_tool_names : List String
wiki_tool_names = "search_wiki" ∷ "read_wiki_page" ∷ "get_wiki_index" ∷ []

abbrev pub raw_tool_names : List String
raw_tool_names = "read_raw" ∷ "grep_raw" ∷ []

unfoldable pub is_wiki_tool : String → Bool
is_wiki_tool name = contains wiki_tool_names name

unfoldable pub is_raw_tool : String → Bool
is_raw_tool name = contains raw_tool_names name

-- `_extract_reads`: the wiki reads and the raw reads.
unfoldable pub extract_reads : List Trace → List Trace × List Trace
extract_reads [] = ([], [])
extract_reads (t ∷ ts) =
    let (wiki, raw) = extract_reads ts in
    if is_wiki_tool t.name
    then (t ∷ wiki, raw)
    else if is_raw_tool t.name
    then (wiki, t ∷ raw)
    else (wiki, raw)

unfoldable pub has_raw_usage : List Trace → Bool
has_raw_usage = any (λ t. is_raw_tool t.name)

-- The result of the evaluator agent.
pub record Evaluation : Type 0 where
  pub needs_repair : Bool
  pub raw : String
  pub confidence : String

-- `_run_repair`: `wiki_dir` says whether the project has a directory, and `compiled` is the
-- candidate of the compiler agent, or none if it raised.
unfoldable pub run_repair : Bool → Option String → FeedbackTask → Result FeedbackTask
unfolding enter_repair mark_compile_failed set_repair_candidate
run_repair wiki_dir compiled task = do
  task1 ← enter_repair task
  if wiki_dir
      then elim compiled [
        | none ↦ mark_compile_failed "compiler exception" task1
        | some candidate ↦ set_repair_candidate candidate task1
      ]
      else mark_compile_failed "project wiki dir not found" task1

-- `_run_evaluation`: `evaluation` is none if the evaluator agent raised.
unfoldable pub run_evaluation :
    Option Evaluation → Bool → Option String → FeedbackTask → Result FeedbackTask
unfolding mark_compile_failed set_evaluator_result run_repair
run_evaluation none wiki_dir compiled task = mark_compile_failed "evaluator exception" task
run_evaluation (some e) wiki_dir compiled task = do
  task1 ← set_evaluator_result e.needs_repair e.raw e.confidence task
  if e.needs_repair then run_repair wiki_dir compiled task1 else ok task1

-- `maybe_trigger_feedback`: the task after the pipeline, if one is created.
unfoldable pub maybe_trigger_feedback :
    Bool
    → Bool
    → String
    → String
    → ℕ
    → List Trace
    → Option Evaluation
    → Bool
    → Option String
    → Option (Result FeedbackTask)
unfolding has_raw_usage create_feedback_task run_evaluation
maybe_trigger_feedback enabled project_enabled id project_id now traces evaluation wiki_dir
      compiled =
    if not enabled
    then none
    else if not (has_raw_usage traces)
    then none
    else if not project_enabled
    then none
    else some (run_evaluation evaluation wiki_dir compiled (create_feedback_task id project_id now))
