-- ===== src/Feedback/Service/Reach.antt =====
-- Every feedback task that the service can reach, by induction on its operations.
use llm_wiki_engine.Prelude.{
  ℕ, ◌≤◌, String, ◌≡◌, ◌≢◌, Bool, true, some, none, arith, nat_eq, string_eq,
}
use llm_wiki_engine.Feedback.Service.{
  evaluation_done, pending_review, approved, rejected, applied, compile_failed, status_eq,
  FeedbackTask, ok, create_feedback_task, set_evaluator_result, set_repair_candidate, approve_task,
  reject_task, request_revision, mark_compile_failed, reevaluate, force_recompile, enter_repair,
  apply_task,
}

-- One successful operation on a task, with the configured bound on revisions.
pub data Step (max_revisions : ℕ) : FeedbackTask → FeedbackTask → Type 0 where
  evaluated :
      {t u : FeedbackTask} (needs_repair : Bool) (output confidence : String)
      → set_evaluator_result needs_repair output confidence t ≡ ok u
      → Step max_revisions t u
  compiled :
      {t u : FeedbackTask} (candidate : String)
      → set_repair_candidate candidate t ≡ ok u
      → Step max_revisions t u
  accept : {t u : FeedbackTask} → approve_task t ≡ ok u → Step max_revisions t u
  reject :
      {t u : FeedbackTask} (reason : String) → reject_task reason t ≡ ok u → Step max_revisions t u
  revise :
      {t u : FeedbackTask} (guidance : String)
      → request_revision max_revisions guidance t ≡ ok u
      → Step max_revisions t u
  fail :
      {t u : FeedbackTask} (error : String)
      → mark_compile_failed error t ≡ ok u
      → Step max_revisions t u
  restart : {t u : FeedbackTask} → reevaluate t ≡ ok u → Step max_revisions t u
  recompile : {t u : FeedbackTask} → force_recompile t ≡ ok u → Step max_revisions t u
  repair : {t u : FeedbackTask} → enter_repair t ≡ ok u → Step max_revisions t u
  apply :
      {t u : FeedbackTask} (has_changes : String → Bool) (written : Bool)
      → apply_task has_changes written t ≡ ok u
      → Step max_revisions t u

pub data Reach (max_revisions : ℕ) (t : FeedbackTask) : FeedbackTask → Type 0 where
  here : Reach max_revisions t t
  next :
      {u v : FeedbackTask}
      → Reach max_revisions t u
      → Step max_revisions u v
      → Reach max_revisions t v

-- What a status promises of the other columns.
pub record IsConsistent (max_revisions : ℕ) (t : FeedbackTask) : Type 0 where
  pub review_has_candidate : t.status ≡ pending_review → t.repair_candidate ≢ none
  pub approved_has_candidate : t.status ≡ approved → t.repair_candidate ≢ none
  pub applied_has_candidate : t.status ≡ applied → t.repair_candidate ≢ none
  pub rejected_has_reason : t.status ≡ rejected → t.reject_reason ≢ none
  pub failed_has_error : t.status ≡ compile_failed → t.error ≢ none
  pub evaluated_has_result : t.status ≡ evaluation_done → t.evaluator_result ≢ none
  pub revisions_bounded : t.revision_count ≤ max_revisions

Step-IsConsistent : {m : ℕ} {t u : FeedbackTask} → Step m t u → IsConsistent m t → IsConsistent m u
unfolding set_evaluator_result set_repair_candidate approve_task reject_task request_revision
    mark_compile_failed reevaluate force_recompile enter_repair apply_task
Step-IsConsistent (evaluated n o c e) h = ground arith
Step-IsConsistent (compiled c e) h = ground arith
Step-IsConsistent (accept e) h = ground arith
Step-IsConsistent (reject r e) h = ground arith
Step-IsConsistent (revise g e) h = ground arith
Step-IsConsistent (fail x e) h = ground arith
Step-IsConsistent (restart e) h = ground arith
Step-IsConsistent (recompile e) h = ground arith
Step-IsConsistent (repair e) h = ground arith
Step-IsConsistent (apply f w e) h = ground arith

-- Every task that the operations reach from a new one, in any order, is consistent: a task under
-- review, approved or applied has a repair candidate, a rejected one a reason, a failed one an
-- error, an evaluated one its result, and no more revisions are counted than are allowed.
pub Reach-IsConsistent :
    (m : ℕ) (id project : String) (now : ℕ) {t : FeedbackTask}
    → Reach m (create_feedback_task id project now) t
    → IsConsistent m t
unfolding create_feedback_task
Reach-IsConsistent m id project now here = ground arith
Reach-IsConsistent m id project now (next r s) =
    Step-IsConsistent s (Reach-IsConsistent m id project now r)

-- The apply handler took the task: it was approved, its candidate names a change, and the changes
-- were written.
pub record IsApplication (t u : FeedbackTask) : Type 0 where
  pub has_changes : String → Bool
  pub candidate : String
  pub was_approved : t.status ≡ approved
  pub stored : t.repair_candidate ≡ some candidate
  pub names_change : has_changes candidate ≡ true
  pub by_handler : apply_task has_changes true t ≡ ok u
