-- ===== src/Feedback/Evaluator.antt =====
-- app/feedback/evaluator.py: the consistency check of the evaluator's verdict, the override by its
-- evidence and the two attempts. What the model answers is given, already parsed.
pub mod Verdict
use llm_wiki_engine.Prelude.{
  ℕ, zero, suc, ◌+◌, String, Bool, true, false, not, ◌&&◌, ◌||◌, Option, none, some, List, [], ◌∷◌,
  ◌++◌, leb, any, nat_eq, ◌==◌, if◌then◌else◌,
}
use llm_wiki_engine.Text.{Text, codes, lstrip, match_literal}

pub data Confidence : Type 0 where
  high medium low : Confidence

-- The evidence in `raw`, with its fields as `_parse_tool_call` normalizes them; the dictionary of
-- an output without a tool call is empty, and every `get` of it is falsy.
pub record Evidence : Type 0 where
  pub wiki_search_sufficient : Bool
  pub used_raw_read : Bool
  pub raw_read_required_for_answer : Bool
  pub answer_contains_info_missing_from_wiki : Bool
  pub answer_contradicts_wiki : Bool

pub record EvaluatorOutput : Type 0 where
  pub needs_repair : Bool
  pub confidence : Confidence
  pub reason : Text
  pub raw : Evidence

-- `.*literal`: the literal on the same line.
unfoldable pub match_later : Text → Text → Bool
unfolding match_literal
match_later p [] = elim (match_literal p []) [ none ↦ false | some rest ↦ true ]
match_later p (c ∷ s) = elim (match_literal p (c ∷ s)) [
  | some rest ↦ true
  | none ↦ if c == b'\n' then false else match_later p s
]

-- The three forms of an alternative: a literal, two with `.*` or with `\s*` between them.
pub data Pattern : Type 0 where
  literal : Text → Pattern
  then_later : Text → Text → Pattern
  then_spaced : Text → Text → Pattern

unfoldable pub matches_here : Text → Pattern → Bool
unfolding match_literal match_later lstrip
matches_here s (literal p) = elim (match_literal p s) [ none ↦ false | some rest ↦ true ]
matches_here s (then_later p q) = elim (match_literal p s) [
  | none ↦ false
  | some rest ↦ match_later q rest
]
matches_here s (then_spaced p q) = elim (match_literal p s) [
  | none ↦ false
  | some rest ↦ elim (match_literal q (lstrip rest)) [ none ↦ false | some more ↦ true ]
]

-- `regex.search(text)`
unfoldable pub search_any : List Pattern → Text → Bool
unfolding matches_here
search_any patterns [] = any (matches_here []) patterns
search_any patterns (c ∷ s) = any (matches_here (c ∷ s)) patterns || search_any patterns s

abbrev pub repair_keywords : List Pattern
repair_keywords =
    literal (codes "需要修复")
    ∷ literal (codes "需要补充")
    ∷ literal (codes "缺失")
    ∷ literal (codes "不完整")
    ∷ literal (codes "不足")
    ∷ literal (codes "过时")
    ∷ literal (codes "缺少")
    ∷ literal (codes "缺乏")
    ∷ literal (codes "应补充")
    ∷ literal (codes "应修复")
    ∷ then_spaced (codes "raw_read") (codes "才能")
    ∷ then_later (codes "依赖") (codes "原始文件")
    ∷ then_later (codes "wiki") (codes "不足")
    ∷ then_later (codes "信息") (codes "缺失")
    ∷ []

abbrev pub no_repair_keywords : List Pattern
no_repair_keywords =
    literal (codes "无需修复")
    ∷ literal (codes "不需要修复")
    ∷ literal (codes "内容充足")
    ∷ literal (codes "无明显缺陷")
    ∷ then_later (codes "wiki") (codes "足够")
    ∷ literal (codes "无缺陷")
    ∷ literal (codes "充分")
    ∷ literal (codes "不需要补充")
    ∷ literal (codes "没有缺失")
    ∷ then_later (codes "完整") (codes "准确")
    ∷ []

unfoldable pub mentions_repair : Text → Bool
unfolding search_any
mentions_repair = search_any repair_keywords

unfoldable pub mentions_no_repair : Text → Bool
unfolding search_any
mentions_no_repair = search_any no_repair_keywords

-- The four conflict descriptions.
pub data Conflict : Type 0 where
  reason_says_repair reason_says_no_repair evidence_says_repair confidence_too_high : Conflict

abbrev one : Bool → ℕ
one true = 1
one false = 0

abbrev pub evidence_signals : Evidence → ℕ
evidence_signals raw =
    one raw.raw_read_required_for_answer
    + one raw.answer_contains_info_missing_from_wiki
    + one raw.answer_contradicts_wiki

abbrev pub is_high : Confidence → Bool
is_high high = true
is_high _ = false

unfoldable pub check_consistency : EvaluatorOutput → Option Conflict
check_consistency output =
    if not output.needs_repair && mentions_repair output.reason
    then some reason_says_repair
    else if output.needs_repair && mentions_no_repair output.reason
    then some reason_says_no_repair
    else if not output.needs_repair && leb 2 (evidence_signals output.raw)
    then some evidence_says_repair
    else if output.needs_repair
        && is_high output.confidence
        && output.raw.wiki_search_sufficient
        && not output.raw.raw_read_required_for_answer
    then some confidence_too_high
    else none

-- All evidence says that no repair is needed.
abbrev pub evidence_clear : Evidence → Bool
evidence_clear raw =
    raw.wiki_search_sufficient
    && not raw.raw_read_required_for_answer
    && not raw.answer_contains_info_missing_from_wiki
    && not raw.answer_contradicts_wiki

-- The evidence says that a repair is needed.
abbrev pub evidence_strong : Evidence → Bool
evidence_strong raw =
    raw.raw_read_required_for_answer && raw.answer_contains_info_missing_from_wiki
    || raw.answer_contradicts_wiki

unfoldable pub apply_evidence_override : EvaluatorOutput → EvaluatorOutput
apply_evidence_override output =
    if output.needs_repair && evidence_clear output.raw
    then record output {
      needs_repair = false;
      confidence = medium;
      reason = codes "证据显示 wiki 检索充足且无缺失信息，覆盖为不需要修复";
    }
    else if not output.needs_repair && evidence_strong output.raw
    then record output {
      needs_repair = true;
      confidence = medium;
      reason = codes "证据显示回答依赖原始文件且包含 wiki 缺失信息，覆盖为需要修复";
    }
    else output

abbrev pub max_attempts : ℕ
max_attempts = 2

abbrev pub no_output : EvaluatorOutput
no_output = record {
  needs_repair = false;
  confidence = low;
  reason = codes "evaluator did not produce structured output";
  raw = record {
    wiki_search_sufficient = false;
    used_raw_read = false;
    raw_read_required_for_answer = false;
    answer_contains_info_missing_from_wiki = false;
    answer_contradicts_wiki = false;
  };
}

-- The statements after the loop.
unfoldable pub after_attempts : Option EvaluatorOutput → EvaluatorOutput
unfolding apply_evidence_override
after_attempts none = no_output
after_attempts (some last) = apply_evidence_override last

-- The loop over the attempts: `answers n` is the output parsed from the n-th answer, if it calls
-- the tool, and `last_output` the last conflicting one.
unfoldable pub attempts :
    (ℕ → Option EvaluatorOutput) → ℕ → ℕ → Option EvaluatorOutput → EvaluatorOutput
unfolding after_attempts check_consistency
attempts answers zero n last_output = after_attempts last_output
attempts answers (suc left) n last_output = elim (answers n) [
  | none ↦ attempts answers left (suc n) last_output
  | some parsed ↦ elim (check_consistency parsed) [
    | none ↦ apply_evidence_override parsed
    | some conflict ↦ attempts answers left (suc n) (some parsed)
  ]
]

unfoldable pub run_evaluator : (ℕ → Option EvaluatorOutput) → EvaluatorOutput
unfolding attempts
run_evaluator answers = attempts answers max_attempts 0 none
