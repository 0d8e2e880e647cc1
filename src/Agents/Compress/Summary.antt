-- ===== src/Agents/Compress/Summary.antt =====
-- app/agents/context_compress.py and app/chat/context.py: the texts that are summarized, and the
-- summary in the system prompt.
use llm_wiki_engine.Prelude.{
  ℕ, ◌*◌, Bool, true, false, Option, none, some, List, [], ◌∷◌, ◌++◌, map, length, take, drop, ltb,
  leb, if◌then◌else◌,
}
use llm_wiki_engine.Text.{Text, codes, strip, rstrip, starts_with, join, is_empty}
use llm_wiki_engine.Agents.Messages.{Message, system_msg, user_msg, assistant_msg, tool_msg}

abbrev pub chars_per_token : ℕ
chars_per_token = 4

unfoldable pub truncate_to_budget : Text → ℕ → Text
truncate_to_budget text token_budget =
    let max_chars = token_budget * chars_per_token in
    if leb (length text) max_chars
    then text
    else take max_chars text ++ codes "\n\n[... truncated to fit context budget ...]"

-- msg.get("content") or ""
abbrev pub content_of : Message → Text
content_of (system_msg t) = t
content_of (user_msg t) = t
content_of (assistant_msg none calls) = []
content_of (assistant_msg (some t) calls) = t
content_of (tool_msg id t) = t

-- What a message contributes to a summary of turns.
unfoldable pub turn_line : Message → List Text
turn_line (user_msg t) = if is_empty t then [] else (codes "用户: " ++ t) ∷ []
turn_line (assistant_msg (some t) calls) = if is_empty t then [] else (codes "助手: " ++ t) ∷ []
turn_line _ = []

unfoldable pub turn_lines : List Message → List Text
turn_lines [] = []
turn_lines (m ∷ ms) = turn_line m ++ turn_lines ms

unfoldable pub format_turns_for_summary : List Message → Text
format_turns_for_summary turns = join (codes "\n\n") (turn_lines turns)

-- What stands before the first occurrence of a text, and what follows from there.
abbrev pub cons_before : ℕ → Option (Text × Text) → Option (Text × Text)
cons_before c none = none
cons_before c (some (before, from)) = some (c ∷ before, from)

unfoldable pub cut_at : Text → Text → Option (Text × Text)
cut_at lit [] = if is_empty lit then some ([], []) else none
cut_at lit (c ∷ s) =
    let later = cons_before c (cut_at lit s) in
    if starts_with lit (c ∷ s) then some ([], c ∷ s) else later

-- What follows the summary in a prompt: the next heading, or nothing.
abbrev pub from_heading : Text → Text
from_heading s = elim (cut_at (codes "\n\n## ") s) [ none ↦ [] | some (before, from) ↦ from ]

abbrev pub history_header : Text
history_header = codes "## 此前对话摘要"

abbrev pub tool_header : Text
tool_header = codes "## 此前工具调用摘要"

-- `expand` is how `re.sub` reads its replacement: it raises on an escape that it does not know.
unfoldable pub inject_summary_block : (Text → Option Text) → Text → Text → Text → Option Text
inject_summary_block expand content header summary =
    let opener = codes "\n\n" ++ (header ++ codes "\n") in
    let block = opener ++ strip summary in
    elim (cut_at opener content) [
      | none ↦ some (rstrip content ++ block)
      | some (before, from) ↦ elim (expand block) [
        | none ↦ none
        | some text ↦ some (before ++ (text ++ from_heading (drop (length opener) from)))
      ]
    ]

-- The lines of a group for the summary: the names of the calls, then the results.
abbrev clipped : Text → Text
clipped t = if ltb 2000 (length t) then take 2000 t ++ codes "..." else t

unfoldable pub tool_lines : Bool → List Message → List Text
tool_lines in_group [] = []
tool_lines in_group (assistant_msg t (c ∷ cs) ∷ ms) =
    (codes "工具调用: " ++ join (codes ", ") (map (λ k. k.name) (c ∷ cs))) ∷ tool_lines true ms
tool_lines true (tool_msg id t ∷ ms) = (codes "工具结果: " ++ clipped t) ∷ tool_lines true ms
tool_lines in_group (m ∷ ms) = tool_lines false ms

unfoldable pub format_tool_tail_for_summary : List Message → Text
format_tool_tail_for_summary ms = join (codes "\n\n") (tool_lines false ms)
