-- ===== src/Feedback/Evaluator/Verdict.antt =====
-- app/feedback/evaluator.py: the verdict of the evaluator and its evidence.
use llm_wiki_engine.Prelude.{
  ℕ, zero, suc, ◌≡◌, inl, inr, true, false, Option, none, some, arith, Option-cases,
}
use llm_wiki_engine.Feedback.Evaluator.{
  EvaluatorOutput, check_consistency, apply_evidence_override, after_attempts, attempts,
  run_evaluator, max_attempts,
}

-- The verdict agrees with its own evidence where that is decisive: a wiki that suffices, without a
-- read of raw files that was needed, a gap or a contradiction, needs no repair; a contradiction
-- needs one, and so does a gap that a read of raw files had to fill.
abbrev pub Agrees : EvaluatorOutput → Type 0
Agrees o =
    (o.raw.wiki_search_sufficient ≡ true
      → o.raw.raw_read_required_for_answer ≡ false
      → o.raw.answer_contains_info_missing_from_wiki ≡ false
      → o.raw.answer_contradicts_wiki ≡ false
      → o.needs_repair ≡ false)
    × (o.raw.answer_contradicts_wiki ≡ true → o.needs_repair ≡ true)
    × (o.raw.raw_read_required_for_answer ≡ true
        → o.raw.answer_contains_info_missing_from_wiki ≡ true
        → o.needs_repair ≡ true)

apply_evidence_override-Agrees : (o : EvaluatorOutput) → Agrees (apply_evidence_override o)
unfolding apply_evidence_override
apply_evidence_override-Agrees o = ground arith

-- The override keeps the evidence, changes only a verdict that contradicts it, and another
-- override changes nothing.
apply_evidence_override_exact :
    (o : EvaluatorOutput)
    → ((apply_evidence_override o).raw ≡ o.raw)
      × (Agrees o → apply_evidence_override o ≡ o)
      × (apply_evidence_override (apply_evidence_override o) ≡ apply_evidence_override o)
unfolding apply_evidence_override
apply_evidence_override_exact o = (ground arith, (λ h. ground arith), ground arith)

after_attempts-Agrees : (o : Option EvaluatorOutput) → Agrees (after_attempts o)
unfolding after_attempts
after_attempts-Agrees none = ground arith
after_attempts-Agrees (some o) = apply_evidence_override-Agrees o

attempts-Agrees :
    (answers : ℕ → Option EvaluatorOutput) (left n : ℕ) (last : Option EvaluatorOutput)
    → Agrees (attempts answers left n last)
unfolding attempts
attempts-Agrees answers zero n last = after_attempts-Agrees last
attempts-Agrees answers (suc left) n last = elim (Option-cases (answers n)) [
  | inl e ↦ rw (e, attempts) (attempts-Agrees answers left (suc n) last)
  | inr (o, e) ↦ elim (Option-cases (check_consistency o)) [
    | inl f ↦ rw (e, attempts) (rw (f, attempts) (apply_evidence_override-Agrees o))
    | inr (c, f) ↦
        rw (e, attempts) (rw (f, attempts) (attempts-Agrees answers left (suc n) (some o)))
  ]
]

-- Whatever the model answers in its two attempts, the evaluator's verdict agrees with the evidence
-- that it returns: no repair is asked for where the wiki sufficed, no raw file was needed, and
-- nothing was missing or contradicted; and a repair is asked for where the answer contradicts the
-- wiki, or needed raw files and held what the wiki misses.
pub run_evaluator-Agrees : (answers : ℕ → Option EvaluatorOutput) → Agrees (run_evaluator answers)
unfolding run_evaluator
run_evaluator-Agrees answers = attempts-Agrees answers max_attempts 0 none
