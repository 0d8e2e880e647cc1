-- ===== src/Feedback/Service.antt =====
-- app/feedback/service.py, models.py and the handlers of router.py: the life of a feedback task.
-- The JSON columns are texts of an abstract type; a handler that raises before its commit leaves
-- the stored task as it was.
pub mod Reach
use llm_wiki_engine.Prelude.{
  ℕ, suc, ◌+◌, String, ◌≡◌, ◌↔◌, Bool, true, false, not, ◌&&◌, Option, none, some, List, [], ◌∷◌,
  ◌++◌, arith, contains, filter, leb, Eq, nat_eq, ◌==◌, string_eq, if◌then◌else◌,
}

pub data Status : Type 0 where
  pending_evaluation evaluation_done pending_review pending_recompile : Status
  approved rejected applied compile_failed : Status

abbrev code_of : Status → ℕ
code_of pending_evaluation = 0
code_of evaluation_done = 1
code_of pending_review = 2
code_of pending_recompile = 3
code_of approved = 4
code_of rejected = 5
code_of applied = 6
code_of compile_failed = 7

abbrev pub status_beq : Status → Status → Bool
status_beq a b = code_of a == code_of b

pub status_beq_iff : (a b : Status) → (status_beq a b ≡ true) ↔ (a ≡ b)
status_beq_iff a b = ground arith

instance abbrev pub status_eq : Eq Status
status_eq = record { equal = status_beq; equal_iff = status_beq_iff }

-- The columns of `FeedbackTask` that the service reads or writes.
pub record FeedbackTask : Type 0 where
  pub id : String
  pub project_id : String
  pub status : Status
  pub target_page_path : Option String
  pub evaluator_result : Option String
  pub evaluator_confidence : Option String
  pub repair_candidate : Option String
  pub review_guidance : Option String
  pub reject_reason : Option String
  pub revision_count : ℕ
  pub error : Option String
  pub created_at : ℕ

-- `_TRANSITIONS`; `applied` has no entry.
unfoldable pub transitions : Status → List Status
transitions pending_evaluation = evaluation_done ∷ rejected ∷ compile_failed ∷ []
transitions evaluation_done = pending_evaluation ∷ pending_review ∷ pending_recompile ∷ []
transitions pending_review = pending_evaluation ∷ approved ∷ rejected ∷ pending_recompile ∷ []
transitions pending_recompile = pending_evaluation ∷ pending_review ∷ compile_failed ∷ []
transitions approved = applied ∷ []
transitions rejected = pending_evaluation ∷ pending_recompile ∷ []
transitions compile_failed = pending_evaluation ∷ pending_recompile ∷ rejected ∷ []
transitions applied = []

-- The exceptions that a handler turns into an answer.
pub data Failure : Type 0 where
  illegal_transition : Status → Status → Failure
  max_revisions_reached : Failure
  bad_request not_found server_error : Failure

pub data Result {ℓ} (A : Type ℓ) : Type ℓ where
  ok : A → Result A
  err : Failure → Result A

infixl 5 ◌>>=◌
abbrev pub ◌>>=◌ {ℓ κ} : {A : Type ℓ} {B : Type κ} → Result A → (A → Result B) → Result B
ok a >>= f = f a
err e >>= f = err e

unfoldable pub transition_status : FeedbackTask → Status → Result FeedbackTask
unfolding transitions
transition_status task new_status =
    if contains (transitions task.status) new_status
    then ok (record task { status = new_status })
    else err (illegal_transition task.status new_status)

-- The row that `create_feedback_task` adds.
unfoldable pub create_feedback_task : String → String → ℕ → FeedbackTask
create_feedback_task id project_id now = record {
  id = id;
  project_id = project_id;
  status = pending_evaluation;
  target_page_path = none;
  evaluator_result = none;
  evaluator_confidence = none;
  repair_candidate = none;
  review_guidance = none;
  reject_reason = none;
  revision_count = 0;
  error = none;
  created_at = now;
}

unfoldable pub set_evaluator_result : Bool → String → String → FeedbackTask → Result FeedbackTask
unfolding transition_status
set_evaluator_result needs_repair output confidence task =
    let task1 = record task {
      evaluator_result = some output;
      evaluator_confidence = some confidence;
    } in
    if needs_repair then transition_status task1 evaluation_done else (do
      task2 ← transition_status task1 rejected
      ok (record task2 { reject_reason = some "evaluator: no repair needed" }))

unfoldable pub set_repair_candidate : String → FeedbackTask → Result FeedbackTask
unfolding transition_status
set_repair_candidate candidate task =
    transition_status (record task { repair_candidate = some candidate }) pending_review

unfoldable pub approve_task : FeedbackTask → Result FeedbackTask
unfolding transition_status
approve_task task = transition_status task approved

unfoldable pub reject_task : String → FeedbackTask → Result FeedbackTask
unfolding transition_status
reject_task reason task = transition_status (record task { reject_reason = some reason }) rejected

unfoldable pub request_revision : ℕ → String → FeedbackTask → Result FeedbackTask
unfolding transition_status
request_revision max_revisions guidance task =
    if leb max_revisions task.revision_count
    then err max_revisions_reached
    else transition_status
        (record task { review_guidance = some guidance; revision_count = task.revision_count + 1 })
        pending_recompile

unfoldable pub mark_applied : FeedbackTask → Result FeedbackTask
unfolding transition_status
mark_applied task = transition_status task applied

unfoldable pub mark_compile_failed : String → FeedbackTask → Result FeedbackTask
unfolding transition_status
mark_compile_failed error task =
    transition_status (record task { error = some error }) compile_failed

abbrev pub reevaluable : List Status
reevaluable = evaluation_done ∷ pending_review ∷ pending_recompile ∷ compile_failed ∷ rejected ∷ []

-- `reevaluate_feedback_task`, up to the start of the evaluation.
unfoldable pub reevaluate : FeedbackTask → Result FeedbackTask
unfolding transition_status
reevaluate task =
    if contains reevaluable task.status
    then (do
      task1 ← transition_status task pending_evaluation
      ok (record task1 {
        evaluator_result = none;
        evaluator_confidence = none;
        repair_candidate = none;
        reject_reason = none;
        review_guidance = none;
        error = none;
      }))
    else err bad_request

abbrev pub recompilable : List Status
recompilable = evaluation_done ∷ pending_review ∷ compile_failed ∷ rejected ∷ []

-- `force_recompile`, up to the start of the compilation.
unfoldable pub force_recompile : FeedbackTask → Result FeedbackTask
unfolding transition_status
force_recompile task =
    if contains recompilable task.status
    then (if task.status == pending_recompile
        then ok task
        else transition_status task pending_recompile)
    else err bad_request

-- The start of `_run_repair`: the status that it enters before it compiles.
unfoldable pub enter_repair : FeedbackTask → Result FeedbackTask
unfolding transition_status
enter_repair task =
    if contains (pending_recompile ∷ []) task.status
    then ok task
    else transition_status task pending_recompile

-- `apply_feedback_task`: `has_changes` says whether a stored candidate names a change, and
-- `written` whether `_apply_wiki_changes` returned.
unfoldable pub apply_task : (String → Bool) → Bool → FeedbackTask → Result FeedbackTask
unfolding mark_applied
apply_task has_changes written task =
    if task.status == approved
    then elim task.repair_candidate [
      | none ↦ err bad_request
      | some candidate ↦
          if has_changes candidate
          then (if written then mark_applied task else err server_error)
          else err bad_request
    ]
    else err bad_request

abbrev pub terminal_statuses : List Status
terminal_statuses = approved ∷ rejected ∷ applied ∷ []

-- The rows of `find_duplicate`; the query takes the newest of them.
unfoldable pub duplicates : String → String → ℕ → List FeedbackTask → List FeedbackTask
duplicates project_id path cutoff = filter (λ t.
    t.project_id == project_id
    && elim t.target_page_path [ none ↦ false | some p ↦ p == path ]
    && not (contains terminal_statuses t.status)
    && leb cutoff t.created_at)
