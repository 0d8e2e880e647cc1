-- ===== src/Feedback/Queue/Outcomes.antt =====
-- Where the feedback pipeline ends, and which traces start it.
use mathlib.Core.Path.{subst}
use llm_wiki_engine.Prelude.{
  ℕ, String, ◌≡◌, ◌≢◌, ◌↔◌, refl, ◌⊎◌, inl, inr, Bool, true, false, ◌&&◌, ◌||◌, Option, none, some,
  List, [], ◌∷◌, arith, sym, filter, not, is_nil, Bool-cases, contains, string_eq, eq_iff, str_eq,
}
use llm_wiki_engine.Feedback.Service.{
  Status, pending_evaluation, pending_review, pending_recompile, rejected, compile_failed,
  FeedbackTask, Result, ok, err,
}
use llm_wiki_engine.Feedback.Queue.{
  Trace, Evaluation, extract_reads, has_raw_usage, is_wiki_tool, is_raw_tool, raw_tool_names,
  run_repair, run_evaluation, maybe_trigger_feedback,
}

abbrev pub IsAwaitingUser : Status → Type 0
IsAwaitingUser s = (s ≡ rejected) ⊎ (s ≡ pending_review) ⊎ (s ≡ compile_failed)

-- The pipeline returned, and the task is where a user decides about it.
abbrev pub Ends : Option String → Result FeedbackTask → Type 0
Ends candidate (ok u) =
    IsAwaitingUser u.status × (u.status ≡ pending_review → u.repair_candidate ≡ candidate)
Ends candidate (err e) = ⊥

module _ (t : FeedbackTask) where
  at_status : Status → FeedbackTask
  at_status s = record t { status = s }

  run_repair-Ends_from :
      (dir : Bool) (c : Option String) → Ends c (run_repair dir c (at_status pending_recompile))
  unfolding run_repair at_status
  run_repair-Ends_from true none = (inr (inr refl), λ h. cc)
  run_repair-Ends_from true (some c) = (inr (inl refl), λ h. refl)
  run_repair-Ends_from false c = (inr (inr refl), λ h. cc)

  run_evaluation-Ends_from :
      (e : Option Evaluation) (dir : Bool) (c : Option String)
      → Ends c (run_evaluation e dir c (at_status pending_evaluation))
  unfolding run_evaluation at_status
  run_evaluation-Ends_from none dir c = (inr (inr refl), λ h. cc)
  run_evaluation-Ends_from (some e) dir c = go e.needs_repair dir c
    where
      go :
          (b : Bool) (dir : Bool) (c : Option String)
          → Ends c (
              run_evaluation
                (some (record e { needs_repair = b }))
                dir
                c
                (at_status pending_evaluation))
      go true true none = (inr (inr refl), λ h. cc)
      go true true (some c) = (inr (inl refl), λ h. refl)
      go true false c = (inr (inr refl), λ h. cc)
      go false dir c = (inl refl, λ h. cc)

-- From a task that waits for its evaluation, the pipeline never raises an illegal transition,
-- whatever the agents return and whether they raise: it ends with a rejected task, a task under
-- review that has the compiler's candidate, or a failed one.
pub run_evaluation-Ends :
    (e : Option Evaluation) (dir : Bool) (c : Option String) (t : FeedbackTask)
    → t.status ≡ pending_evaluation
    → Ends c (run_evaluation e dir c t)
run_evaluation-Ends e dir c t h =
    subst (λ s. Ends c (run_evaluation e dir c (record t { status = s }))) (sym h)
      (unfold at_status in run_evaluation-Ends_from t e dir c)

wiki_not_raw : (name : String) → is_wiki_tool name ≡ true → is_raw_tool name ≡ false
unfolding is_wiki_tool is_raw_tool
wiki_not_raw name h = elim (Bool-cases (str_eq "search_wiki" name)) [
  | inl e ↦ subst (λ n. contains raw_tool_names n ≡ false) ((eq_iff "search_wiki" name).0 e) refl
  | inr n ↦ elim (Bool-cases (str_eq "read_wiki_page" name)) [
    | inl e ↦
        subst (λ n. contains raw_tool_names n ≡ false) ((eq_iff "read_wiki_page" name).0 e) refl
    | inr m ↦
        subst (λ n. contains raw_tool_names n ≡ false)
          ((eq_iff "get_wiki_index" name).0 (last _ _ (str_eq "get_wiki_index" name) n m h)) refl
  ]
]
  where
    last : (a b c : Bool) → a ≡ false → b ≡ false → (a || (b || (c || false))) ≡ true → c ≡ true
    last a b c n m h = ground arith

-- The wiki reads and the raw reads of the traces are those whose tools are named so, in order.
extract_reads-filter :
    (ts : List Trace)
    → ((extract_reads ts).0 ≡ filter (λ t. is_wiki_tool t.name) ts)
      × ((extract_reads ts).1 ≡ filter (λ t. is_raw_tool t.name) ts)
unfolding extract_reads
extract_reads-filter [] = (refl, refl)
extract_reads-filter (t ∷ ts) = ground (arith, wiki_not_raw t.name, extract_reads-filter ts)

has_raw_usage-filter :
    (ts : List Trace) → has_raw_usage ts ≡ not (is_nil (filter (λ t. is_raw_tool t.name) ts))
unfolding has_raw_usage
has_raw_usage-filter [] = refl
has_raw_usage-filter (t ∷ ts) = ground (arith, has_raw_usage-filter ts)

-- A feedback task is created exactly if both switches are on and a trace names a raw tool.
maybe_trigger_feedback_exact :
    (on project_on : Bool) (id project : String) (now : ℕ) (ts : List Trace) (e : Option Evaluation)
    (dir : Bool) (c : Option String)
    → (maybe_trigger_feedback on project_on id project now ts e dir c ≢ none)
      ↔ ((on && project_on && not (is_nil (extract_reads ts).1)) ≡ true)
unfolding maybe_trigger_feedback
maybe_trigger_feedback_exact on project_on id project now ts e dir c =
    ground (arith, has_raw_usage-filter ts, extract_reads-filter ts)
