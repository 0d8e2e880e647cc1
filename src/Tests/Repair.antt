-- ===== src/Tests/Repair.antt =====
-- app/feedback on one task.
use llm_wiki_engine.Prelude.{
  sort_by, insert_by, ℕ, ◌≡◌, refl, Bool, true, false, none, some, List, [], ◌∷◌,
}
use llm_wiki_engine.Text.{newlines, codes, split_on, text_beq, starts_with, join}
use llm_wiki_engine.Feedback.Service.{
  Status, evaluation_done, FeedbackTask, status_eq, create_feedback_task, set_evaluator_result,
}
use llm_wiki_engine.Feedback.Service.Reach.{
  Step, evaluated, here, next, IsConsistent, Reach-IsConsistent,
}
use llm_wiki_engine.Feedback.Queue.{Trace, Evaluation, run_evaluation}
use llm_wiki_engine.Feedback.Queue.Outcomes.{Ends, run_evaluation-Ends}
use llm_wiki_engine.Feedback.Evaluator.{EvaluatorOutput, high, run_evaluator}
use llm_wiki_engine.Feedback.Evaluator.Verdict.{Agrees, run_evaluator-Agrees}
use llm_wiki_engine.Ingest.Writer.{text_leb}
use llm_wiki_engine.Feedback.WikiTools.{
  WikiPath, WikiFiles, FileChange, edit_file, create_file, submit_changes, lookup, put, path_beq,
  norm_loop, reverse_onto, normpath, escapes, resolve, count_from, count, replace_first,
  edit_content, edit_resolved, do_edit, create_resolved, do_create, execute_tool, change_of,
  collect_loop, collect_changes,
}
use llm_wiki_engine.Feedback.Compiler.{
  Turn, acts, run_calls, agent_loop, run_compiler, apply_changes,
}
use llm_wiki_engine.Feedback.Compiler.Replay.{run_compiler-apply_changes}

abbrev new_task : FeedbackTask
new_task = create_feedback_task "t" "p" 7

abbrev task_at : Status → FeedbackTask
task_at s = record {
  id = "t";
  project_id = "p";
  status = s;
  target_page_path = none;
  evaluator_result = some "{}";
  evaluator_confidence = some "high";
  repair_candidate = some "{changes}";
  review_guidance = none;
  reject_reason = none;
  revision_count = 0;
  error = none;
  created_at = 7;
}

evaluated_task : FeedbackTask
evaluated_task = record new_task {
  status = evaluation_done;
  evaluator_result = some "{}";
  evaluator_confidence = some "high";
}

evaluates : Step 5 new_task evaluated_task
unfolding evaluated_task create_feedback_task set_evaluator_result
evaluates = evaluated true "{}" "high" refl

Reach-IsConsistent_example : IsConsistent 5 evaluated_task
Reach-IsConsistent_example = Reach-IsConsistent 5 "t" "p" 7 (next here evaluates)

abbrev needs_repair_now : Evaluation
needs_repair_now = record { needs_repair = true; raw = "{}"; confidence = "high" }

run_evaluation-Ends_example :
    Ends
      (some "{changes}")
      (run_evaluation (some needs_repair_now) true (some "{changes}") new_task)
unfolding create_feedback_task
run_evaluation-Ends_example =
    run_evaluation-Ends (some needs_repair_now) true (some "{changes}") new_task refl

abbrev raw_traces : List Trace
raw_traces =
    record { name = "search_wiki"; text = "a" }
    ∷ record { name = "read_raw"; text = "b" }
    ∷ record { name = "other"; text = "c" }
    ∷ []

-- A model that denies a repair against strong evidence.
abbrev contradicting : EvaluatorOutput
contradicting = record {
  needs_repair = false;
  confidence = high;
  reason = codes "ok";
  raw = record {
    wiki_search_sufficient = false;
    used_raw_read = true;
    raw_read_required_for_answer = true;
    answer_contains_info_missing_from_wiki = true;
    answer_contradicts_wiki = false;
  };
}

run_evaluator-Agrees_example : Agrees (run_evaluator (λ n. some contradicting))
run_evaluator-Agrees_example = run_evaluator-Agrees (λ n. some contradicting)

abbrev small_wiki : WikiFiles
small_wiki = (codes "index.md" ∷ [], codes "old text") ∷ []

-- The agent edits a page, creates another one, and submits.
abbrev one_turn : ℕ → Turn
one_turn n = acts (
    edit_file (codes "./index.md") (codes "old") (codes "new")
    ∷ create_file (codes "a/../b.md") (codes "x")
    ∷ submit_changes
    ∷ [])

abbrev two_changes : List FileChange
two_changes =
    record { path = codes "b.md" ∷ []; old_content = none; new_content = codes "x" }
    ∷ record {
      path = codes "index.md" ∷ [];
      old_content = some (codes "old text");
      new_content = codes "new text";
    }
    ∷ []

abbrev never_refused : WikiFiles → WikiPath → Bool
never_refused files path = false

submits_two_changes : (run_compiler never_refused one_turn small_wiki).0 ≡ some two_changes
unfolding run_compiler agent_loop run_calls execute_tool do_edit edit_resolved edit_content
    do_create create_resolved resolve normpath reverse_onto norm_loop escapes lookup put path_beq
    count count_from replace_first collect_changes collect_loop change_of sort_by insert_by text_leb
    split_on text_beq starts_with join newlines
submits_two_changes = refl

run_compiler-apply_changes_example :
    (out : WikiFiles) × (apply_changes two_changes small_wiki ≡ some out)
    × ((q : WikiPath) → lookup q out ≡ lookup q (run_compiler never_refused one_turn small_wiki).1)
unfolding lookup
run_compiler-apply_changes_example =
    run_compiler-apply_changes never_refused one_turn small_wiki two_changes (refl, tt)
      submits_two_changes
