-- ===== src/Agents/Turn.antt =====
-- app/agents/orchestrator.py: one turn of an agent, the loop of model calls and tool calls with its
-- budget. What the model and the tools answer, and whether the client is gone at the n-th test, are
-- given.
pub mod Budget
pub mod Contexts
use llm_wiki_engine.Prelude.{
  ℕ, zero, suc, ◌+◌, Bool, true, false, not, ◌&&◌, ◌||◌, Option, none, some, List, [], ◌∷◌, ◌++◌,
  map, leb, ◌==◌, if◌then◌else◌,
}
use llm_wiki_engine.Text.{Text, codes, is_empty, strip}
use llm_wiki_engine.Ingest.Writer.{text_eq}
use llm_wiki_engine.Text.{occurs_in}
use llm_wiki_engine.Agents.Messages.{
  ToolCall, Message, system_msg, user_msg, assistant_msg, tool_msg,
}
use llm_wiki_engine.Llm.Client.{TokenUsage, LlmResponse}
use llm_wiki_engine.Agents.Compress.{
  should_compress, CompressResult, Model, resolve_prompt_tokens, compress_agent_context,
}

-- resp.usage.prompt_tokens if resp.usage else None
abbrev pub prompt_tokens_of : Option TokenUsage → Option ℕ
prompt_tokens_of none = none
prompt_tokens_of (some u) = some u.prompt_tokens

-- What a tool returned: the text of the result, and whether it has the key "error".
pub record ToolResult : Type 0 where
  pub text : Text
  pub is_error : Bool

-- `ToolTrace`; a rejected call has no result of a tool.
pub record ToolTrace : Type 0 where
  pub name : Text
  pub arguments : Text
  pub result : Option ToolResult

-- The events of the stream.
pub data Event : Type 0 where
  token : Text → Event
  calling rejecting answered : Text → Event
  compressing compressed_event : Event
  finished : List ToolTrace → Option (List Message) → Event

-- How a turn ends: with its last event, because the client left, or with an exception.
pub data Ending : Type 0 where
  complete cancelled raised : Ending

-- The variables of `run_agent_turn`, with the events yielded and the tests for the client done.
pub record TurnState : Type 0 where
  pub messages : List Message
  pub persisted_history : List Message
  pub context_compressed : Bool
  pub traces : List ToolTrace
  pub used_ticket : Bool
  pub tool_call_count : ℕ
  pub events : List Event
  pub tests : ℕ

pub record Settings : Type 0 where
  pub max_tool_calls : ℕ
  pub threshold : ℕ
  pub target : ℕ

-- The model with tools, the model without, the tools, the parser of arguments with {} for a text that
-- is no JSON, and `should_cancel`. Answers may change in time, which the tests of the client count.
pub record World : Type 0 where
  pub complete_with_tools : ℕ → List Message → Option LlmResponse
  pub llm_stream : List Message → Option (List Text)
  pub execute_tool : ℕ → Text → Text → Option ToolResult
  pub loads : Text → Text
  pub should_cancel : ℕ → Bool
  pub model : Model

abbrev pub reject_msg : Text
reject_msg = codes "已达到最大工具调用次数，请立即根据目前已获取的数据输出结果。"

abbrev pub emit : Event → TurnState → TurnState
emit e s = record s { events = s.events ++ e ∷ [] }

abbrev pub is_ticket_tool : Text → Bool
is_ticket_tool name = name == codes "search_ticket_cases" || name == codes "read_ticket_case"

-- `_done_event`
abbrev pub done_event : TurnState → Event
done_event s = finished s.traces (if s.context_compressed then some s.persisted_history else none)

-- The final answer, with a note when the case library was used.
unfoldable pub final_text : Bool → Text → Text
unfolding occurs_in
final_text used_ticket content =
    if used_ticket && not (occurs_in (codes "参考了案例库") content)
    then content ++ codes "\n\n> 以上结论参考了案例库。"
    else content

-- The messages and the stored history after a compression.
unfoldable pub take_compressed : CompressResult → TurnState → TurnState
take_compressed r s =
    if r.compressed
    then record s {
      messages = r.messages;
      persisted_history = r.persisted_history;
      context_compressed = true;
    }
    else s

module _ (world : World) (settings : Settings) where
  -- `_abort_if_cancelled`: if the client is gone the turn ends, else it goes on.
  unfoldable pub unless_cancelled :
      (TurnState → Ending × TurnState) → TurnState → Ending × TurnState
  unless_cancelled go s =
      if world.should_cancel s.tests
      then (cancelled, record s { tests = suc s.tests })
      else go (record s { tests = suc s.tests })

  -- A call over the budget.
  unfoldable pub reject_call : ToolCall → TurnState → TurnState
  reject_call call s = record s {
    messages = s.messages ++ tool_msg call.id reject_msg ∷ [];
    traces =
        s.traces
        ++ (record { name = call.name; arguments = world.loads call.arguments; result = none })
          ∷ [];
    events = s.events ++ rejecting call.name ∷ answered call.name ∷ [];
  }

  -- What follows on the result of a tool.
  unfoldable pub record_result : ToolCall → ToolResult → TurnState → TurnState
  record_result call result s = record s {
    messages = s.messages ++ tool_msg call.id result.text ∷ [];
    traces =
        s.traces
        ++ (record {
          name = call.name;
          arguments = world.loads call.arguments;
          result = some result;
        })
          ∷ [];
    used_ticket = s.used_ticket || (is_ticket_tool call.name && not result.is_error);
    tool_call_count = suc s.tool_call_count;
    events = s.events ++ answered call.name ∷ [];
  }

  -- A call within the budget; a tool may raise.
  unfoldable pub run_tool :
      ToolCall → (TurnState → Ending × TurnState) → TurnState → Ending × TurnState
  run_tool call next s = elim (world.execute_tool s.tests call.name (world.loads call.arguments)) [
    | none ↦ (raised, emit (calling call.name) s)
    | some result ↦ next (record_result call result (emit (calling call.name) s))
  ]

  unfoldable pub do_call :
      ToolCall → (TurnState → Ending × TurnState) → TurnState → Ending × TurnState
  do_call call next s =
      if leb settings.max_tool_calls s.tool_call_count
      then next (reject_call call s)
      else run_tool call next s

  -- The loop over the tool calls of an answer, then the next round.
  unfoldable pub run_calls :
      List ToolCall → (TurnState → Ending × TurnState) → TurnState → Ending × TurnState
  run_calls [] next s = next s
  run_calls (call ∷ calls) next s = unless_cancelled (do_call call (run_calls calls next)) s

  -- The answer without tool calls ends the turn.
  unfoldable pub finish_turn : Option Text → TurnState → Ending × TurnState
  unfolding final_text
  finish_turn content s = elim content [
    | none ↦ (complete, emit (done_event s) s)
    | some t ↦
        if is_empty t
        then (complete, emit (done_event s) s)
        else (complete, emit (done_event s) (emit (token (final_text s.used_ticket t)) s))
  ]

  -- What an answer of the model leads to, after the compression.
  unfoldable pub follow :
      (TurnState → Ending × TurnState)
      → Option Text
      → List ToolCall
      → TurnState
      → Ending × TurnState
  follow next content [] s = finish_turn content s
  follow next content (call ∷ calls) s =
      run_calls (call ∷ calls) next
        (record s { messages = s.messages ++ assistant_msg content (call ∷ calls) ∷ [] })

  -- The rest of a round, when the answer of the compression is known.
  unfoldable pub after_compression :
      (TurnState → Ending × TurnState)
      → LlmResponse
      → Bool
      → Option CompressResult
      → TurnState
      → Ending × TurnState
  after_compression next resp needs_compress none s = (raised, s)
  after_compression next resp needs_compress (some r) s =
      unless_cancelled
        (λ s1.
          follow next resp.content resp.tool_calls
            (take_compressed r (if needs_compress then emit compressed_event s1 else s1)))
        s

  -- The test of the prompt and the compression.
  unfoldable pub compress_step :
      (TurnState → Ending × TurnState) → LlmResponse → TurnState → Ending × TurnState
  compress_step next resp s =
      let prompt_tokens =
        (resolve_prompt_tokens world.model s.messages (prompt_tokens_of resp.usage)).0 in
      let needs_compress = should_compress prompt_tokens settings.threshold in
      after_compression next resp needs_compress
        (compress_agent_context world.model prompt_tokens settings.threshold settings.target
          s.messages s.persisted_history)
        (if needs_compress then emit compressing s else s)

  unfoldable pub on_response :
      (TurnState → Ending × TurnState) → Option LlmResponse → TurnState → Ending × TurnState
  on_response next none s = (raised, s)
  on_response next (some resp) s = unless_cancelled (compress_step next resp) s

  -- The stream without tools, when all rounds are used up.
  unfoldable pub fallback : Option (List Text) → TurnState → Ending × TurnState
  fallback none s = (raised, s)
  fallback (some tokens) s =
      let s1 = record s { events = s.events ++ map token tokens } in
      (complete, emit (done_event s1) s1)

  unfoldable pub rounds : ℕ → TurnState → Ending × TurnState
  rounds zero s = fallback (world.llm_stream s.messages) s
  rounds (suc n) s =
      unless_cancelled
        (λ s1. on_response (rounds n) (world.complete_with_tools s1.tests s1.messages) s1) s

  abbrev pub initial : Text → Text → List Message → TurnState
  initial full_system message history = record {
    messages = system_msg full_system ∷ (history ++ user_msg message ∷ []);
    persisted_history = history;
    context_compressed = false;
    traces = [];
    used_ticket = false;
    tool_call_count = 0;
    events = [];
    tests = 0;
  }

  unfoldable pub run_agent_turn : Text → Text → List Message → Ending × TurnState
  run_agent_turn full_system message history =
      rounds (settings.max_tool_calls + 2) (initial full_system message history)
