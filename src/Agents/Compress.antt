-- ===== src/Agents/Compress.antt =====
-- app/agents/context_compress.py: older history and tool results are replaced by summaries when the
-- prompt has become too long. The thresholds are given in tokens.
mod Summary
pub mod Shape
pub mod Paired
unfoldable pub use Summary.*
use llm_wiki_engine.Prelude.{
  ℕ, zero, suc, ◌+◌, ◌-◌, ◌*◌, ◌/◌, max, Bool, true, false, not, ◌&&◌, ◌||◌, Option, none, some,
  List, [], ◌∷◌, ◌++◌, map, length, take, drop, is_nil, ltb, leb, ◌==◌, if◌then◌else◌,
}
use llm_wiki_engine.Text.{Text, codes, strip, rstrip, starts_with, join, is_empty}
use llm_wiki_engine.Agents.Messages.{
  ToolCall, Message, system_msg, user_msg, assistant_msg, tool_msg,
}

-- KEEP_RECENT_TURNS * 2
abbrev pub keep_count : ℕ
keep_count = 4

abbrev pub keep_recent_tool_groups : ℕ
keep_recent_tool_groups = 1

-- prompt_tokens >= int(max_context_size * threshold)
abbrev pub should_compress : ℕ → ℕ → Bool
should_compress prompt_tokens threshold = leb threshold prompt_tokens

-- The index of the last user message after the first message, as what stands before and after it.
pub record Layout : Type 0 where
  pub history : List Message
  pub current : Text
  pub rest : List Message

unfoldable pub last_user : List Message → Option Layout
last_user [] = none
last_user (user_msg t ∷ ms) = elim (last_user ms) [
  | none ↦ some (record { history = []; current = t; rest = ms })
  | some l ↦ some (record l { history = user_msg t ∷ l.history })
]
last_user (m ∷ ms) = elim (last_user ms) [
  | none ↦ none
  | some l ↦ some (record l { history = m ∷ l.history })
]

-- The tail of tool messages: what follows, if it starts with the assistant.
abbrev pub tool_tail : List Message → List Message
tool_tail (assistant_msg t calls ∷ ms) = assistant_msg t calls ∷ ms
tool_tail _ = []

-- `_parse_layout`: the text of the system message and the layout of the others.
unfoldable pub parse_layout : List Message → Option (Text × Layout)
parse_layout (system_msg s ∷ ms) = elim (last_user ms) [ none ↦ none | some l ↦ some (s, l) ]
parse_layout _ = none

-- xs[:-keep_count] if len(xs) > keep_count else []
abbrev pub older : List Message → List Message
older xs = if ltb keep_count (length xs) then take (length xs - keep_count) xs else []

-- xs[-keep_count:] if len(xs) > keep_count else xs
abbrev pub newer : List Message → List Message
newer xs = if ltb keep_count (length xs) then drop (length xs - keep_count) xs else xs

-- A group in front of the groups of the rest.
abbrev pub add_group :
    Message → List Message → ℕ × List Message × List Message → ℕ × List Message × List Message
add_group m ms (zero, before, from) = (1, [], m ∷ ms)
add_group m ms (suc k, before, from) = (suc (suc k), m ∷ before, from)

-- The number of groups of the tail, each an assistant message with tool calls and the tool messages
-- behind it, and the tail cut at the start of the last one.
unfoldable pub split_groups : List Message → ℕ × List Message × List Message
split_groups [] = (0, [], [])
split_groups (assistant_msg t (c ∷ cs) ∷ ms) =
    add_group (assistant_msg t (c ∷ cs)) ms (split_groups ms)
split_groups (m ∷ ms) = let (n, before, from) = split_groups ms in (n, m ∷ before, from)

-- Whether a while loop of `_truncate_oldest_history` goes on; `estimate` is `estimate_prompt_tokens`
-- of one user message.
unfoldable pub is_too_long : ℕ → List Message → Bool
is_too_long target_tokens trimmed =
    ltb keep_count (length trimmed)
    && ltb (target_tokens / 4) (max 1 (length (format_turns_for_summary trimmed) / chars_per_token))

unfoldable pub truncate_oldest_history : ℕ → List Message → List Message
truncate_oldest_history target_tokens [] = []
truncate_oldest_history target_tokens (m ∷ []) = m ∷ []
truncate_oldest_history target_tokens (m ∷ n ∷ ms) =
    let trimmed = truncate_oldest_history target_tokens ms in
    if is_too_long target_tokens (m ∷ n ∷ ms) then trimmed else m ∷ n ∷ ms

-- The kept tool results when no summary was written.
abbrev pub shorten : Message → Message
shorten (tool_msg id t) = tool_msg id (if ltb 500 (length t) then truncate_to_budget t 125 else t)
shorten m = m

pub record CompressResult : Type 0 where
  pub messages : List Message
  pub persisted_history : List Message
  pub compressed : Bool
  pub summary_snippet : Option Text

-- The answers of the summarizing model, none when its call fails; the length of
-- `json.dumps(tool_calls)`; and the reading of a replacement by `re.sub`.
pub record Model : Type 0 where
  pub summarize_turns : Text → Option Text
  pub summarize_tools : Text → Option Text
  pub dumped_length : List ToolCall → ℕ
  pub expand : Text → Option Text

-- An empty summary counts as none.
abbrev pub nonempty : Option Text → Option Text
nonempty none = none
nonempty (some []) = none
nonempty (some (c ∷ s)) = some (c ∷ s)

-- if summary_snippet is None: summary_snippet = tool_summary[:200]
abbrev pub or_snippet : Option Text → Text → Option Text
or_snippet none summary = some (take 200 summary)
or_snippet (some s) summary = some s

-- The system text, the kept history, the stored history and the snippet.
pub record Head : Type 0 where
  pub system : Text
  pub kept : List Message
  pub persisted : List Message
  pub snippet : Option Text

-- What follows on the prompt with a summary in it, unless the injection raised.
abbrev pub on_text {ℓ} : {A : Type ℓ} → Option Text → (Text → A) → Option A
on_text none f = none
on_text (some text) f = some (f text)

module _ (model : Model) where
  abbrev calls_length : List ToolCall → ℕ
  calls_length [] = 0
  calls_length (c ∷ cs) = model.dumped_length (c ∷ cs)

  abbrev message_length : Message → ℕ
  message_length (assistant_msg t calls) =
      length (content_of (assistant_msg t calls)) + calls_length calls
  message_length m = length (content_of m)

  unfoldable pub total_length : List Message → ℕ
  total_length [] = 0
  total_length (m ∷ ms) = message_length m + total_length ms

  unfoldable pub estimate_prompt_tokens : List Message → ℕ
  estimate_prompt_tokens ms = max 1 (total_length ms / chars_per_token)

  -- `api_prompt_tokens`, if the provider gave it, and whether it did.
  unfoldable pub resolve_prompt_tokens : List Message → Option ℕ → ℕ × Bool
  resolve_prompt_tokens ms none = (estimate_prompt_tokens ms, false)
  resolve_prompt_tokens ms (some zero) = (estimate_prompt_tokens ms, false)
  resolve_prompt_tokens ms (some (suc n)) = (suc n, true)

  -- The summary of the older history was written, or not.
  unfoldable pub apply_summary : ℕ → Text → List Message → List Message → Option Text → Option Head
  apply_summary target system kept persisted (some summary) =
      on_text (inject_summary_block model.expand system history_header summary) (λ text. record {
        system = text;
        kept = kept;
        persisted = newer persisted;
        snippet = some (take 200 summary);
      })
  apply_summary target system kept persisted none =
      on_text (inject_summary_block model.expand system history_header (codes "[较早对话已截断以节省上下文]"))
        (λ text. record {
          system = text;
          kept = newer (truncate_oldest_history target persisted);
          persisted = truncate_oldest_history target persisted;
          snippet = some (codes "[truncated]");
        })

  unfoldable pub compress_history : ℕ → Text → List Message → List Message → Option Head
  compress_history target system history persisted =
      if is_nil (older history)
      then some
          (record { system = system; kept = newer history; persisted = persisted; snippet = none })
      else apply_summary target system (newer history) persisted
          (nonempty (model.summarize_turns (format_turns_for_summary (older history))))

  -- The older groups of the tool tail give way to a summary.
  unfoldable pub apply_tool_summary :
      Head → Text → List Message → Option Text → Option CompressResult
  apply_tool_summary head current kept_slice (some summary) =
      on_text (inject_summary_block model.expand head.system tool_header summary) (λ text. record {
        messages = system_msg text ∷ (head.kept ++ (user_msg current ∷ kept_slice));
        persisted_history = head.persisted;
        compressed = true;
        summary_snippet = or_snippet head.snippet summary;
      })
  apply_tool_summary head current kept_slice none =
      on_text
        (inject_summary_block model.expand head.system tool_header (codes "[较早工具调用结果已截断以节省上下文]"))
        (λ text. record {
          messages = system_msg text ∷ (head.kept ++ (user_msg current ∷ map shorten kept_slice));
          persisted_history = head.persisted;
          compressed = true;
          summary_snippet = head.snippet;
        })

  abbrev pub with_tail : Head → Text → List Message → CompressResult
  with_tail head current tail = record {
    messages = system_msg head.system ∷ (head.kept ++ (user_msg current ∷ tail));
    persisted_history = head.persisted;
    compressed = true;
    summary_snippet = head.snippet;
  }

  unfoldable pub compress_groups :
      Head → Text → List Message → ℕ × List Message × List Message → Option CompressResult
  compress_groups head current tail (n, before, from) =
      if ltb keep_recent_tool_groups n
      then apply_tool_summary head current from
          (nonempty (model.summarize_tools (format_tool_tail_for_summary before)))
      else some (with_tail head current tail)

  unfoldable pub compress_tail : ℕ → Text → List Message → Head → Option CompressResult
  compress_tail target current tail head =
      if not (is_nil tail)
        && ltb target (
            estimate_prompt_tokens
              (system_msg head.system ∷ (head.kept ++ (user_msg current ∷ tail))))
      then compress_groups head current tail (split_groups tail)
      else some (with_tail head current tail)

  abbrev pub uncompressed : List Message → List Message → CompressResult
  uncompressed messages persisted = record {
    messages = messages;
    persisted_history = persisted;
    compressed = false;
    summary_snippet = none;
  }

  abbrev pub then_tail : ℕ → Layout → Option Head → Option CompressResult
  then_tail target l none = none
  then_tail target l (some head) = compress_tail target l.current (tool_tail l.rest) head

  -- The compression of messages with a layout, and of others.
  unfoldable pub compress_layout :
      ℕ → List Message → List Message → Option (Text × Layout) → Option CompressResult
  compress_layout target messages persisted none = some (uncompressed messages persisted)
  compress_layout target messages persisted (some (system, l)) =
      then_tail target l (compress_history target system l.history persisted)

  -- `compress_agent_context`; none when it raises.
  unfoldable pub compress_agent_context :
      ℕ → ℕ → ℕ → List Message → List Message → Option CompressResult
  compress_agent_context prompt_tokens threshold target messages persisted =
      if should_compress prompt_tokens threshold
      then compress_layout target messages persisted (parse_layout messages)
      else some (uncompressed messages persisted)
