-- ===== src/Tests/Agents.antt =====
-- app/agents on a short conversation.
use llm_wiki_engine.Prelude.{
  ℕ, ◌≤◌, ◌≡◌, refl, false, Option, none, some, List, [], ◌∷◌, ◌++◌, arith,
}
use llm_wiki_engine.Text.{Text, codes, text_beq}
use llm_wiki_engine.Llm.Client.{LlmResponse}
use llm_wiki_engine.Agents.Messages.{
  ToolCall, Message, system_msg, user_msg, assistant_msg, tool_msg,
}
use llm_wiki_engine.Agents.Compress.{Model, compress_agent_context}
use llm_wiki_engine.Agents.Compress.Shape.{IsContext}
use llm_wiki_engine.Agents.Compress.Paired.{Keeps, compress_agent_context-Keeps}
use llm_wiki_engine.Agents.Turn.{World, Settings, run_agent_turn}
use llm_wiki_engine.Agents.Turn.Budget.{executed, run_agent_turn-InBudget}
use llm_wiki_engine.Agents.Turn.Contexts.{with_models, run_agent_turn-contexts}

abbrev call : Text → ToolCall
call id = record { id = id; name = codes "search_wiki"; arguments = codes "{}" }

-- Summaries are short, and tool calls are dumped in ten characters.
abbrev model : Model
model = record {
  summarize_turns = λ t. some (codes "s");
  summarize_tools = λ t. none;
  dumped_length = λ calls. 10;
  expand = λ t. some t;
}

abbrev turns : List Message
turns =
    user_msg (codes "a")
    ∷ assistant_msg (some (codes "b")) []
    ∷ user_msg (codes "c")
    ∷ assistant_msg (some (codes "d")) []
    ∷ user_msg (codes "e")
    ∷ assistant_msg (some (codes "f")) []
    ∷ []

abbrev replies : List Message
replies =
    assistant_msg none (call (codes "1") ∷ call (codes "2") ∷ [])
    ∷ tool_msg (codes "1") (codes "x")
    ∷ tool_msg (codes "2") (codes "y")
    ∷ assistant_msg none (call (codes "3") ∷ [])
    ∷ tool_msg (codes "3") (codes "z")
    ∷ []

abbrev messages : List Message
messages = system_msg (codes "sys") ∷ (turns ++ (user_msg (codes "q") ∷ replies))

messages-IsContext : IsContext (codes "q") messages
unfolding text_beq
messages-IsContext = record {
  system = codes "sys";
  turns = turns;
  tail = replies;
  shape = refl;
  turns_are = (refl, (refl, (refl, (refl, (refl, (refl, tt))))));
  tail_are = (refl, (refl, (refl, (refl, (refl, tt)))));
  paired = refl;
}

compress_agent_context-Keeps_example :
    Keeps (codes "q") (compress_agent_context model 100 80 5 messages turns)
compress_agent_context-Keeps_example =
    compress_agent_context-Keeps model 100 80 5 (codes "q") messages turns messages-IsContext
      (refl, (refl, (refl, (refl, (refl, (refl, tt))))))

-- A model that always asks for two tool calls.
abbrev eager : ℕ → List Message → Option LlmResponse
eager n ms = some (record {
  content = none;
  tool_calls = call (codes "1") ∷ call (codes "2") ∷ [];
  finish_reason = none;
  usage = some (record { prompt_tokens = 7; completion_tokens = 1; total_tokens = 8 });
})

abbrev world : World
world = record {
  complete_with_tools = eager;
  llm_stream = λ ms. some (codes "end" ∷ []);
  execute_tool = λ n name arguments. some (record { text = codes "{}"; is_error = false });
  loads = λ t. t;
  should_cancel = λ n. false;
  model = model;
}

abbrev settings : Settings
settings = record { max_tool_calls = 3; threshold = 5; target = 2 }

run_agent_turn-InBudget_example :
    let s = (run_agent_turn world settings (codes "sys") (codes "q") turns).1 in
    (executed s.traces ≡ s.tool_call_count) × (executed s.traces ≤ 3)
run_agent_turn-InBudget_example =
    run_agent_turn-InBudget world settings (codes "sys") (codes "q") turns

-- A model that answers like `eager`, unless it is asked with no message.
abbrev picky : ℕ → List Message → Option LlmResponse
picky n [] = none
picky n (m ∷ ms) = eager n (m ∷ ms)

eager-picky : (n : ℕ) (ms : List Message) → IsContext (codes "q") ms → eager n ms ≡ picky n ms
eager-picky n [] c = absurd (ground (arith, c.shape))
eager-picky n (m ∷ ms) c = refl

run_agent_turn-contexts_example :
    run_agent_turn
      (with_models world eager world.llm_stream)
      settings
      (codes "sys")
      (codes "q")
      turns
    ≡ run_agent_turn
        (with_models world picky world.llm_stream)
        settings
        (codes "sys")
        (codes "q")
        turns
run_agent_turn-contexts_example =
    run_agent_turn-contexts (codes "q") world settings eager picky world.llm_stream world.llm_stream
      (record { with_tools = eager-picky; without_tools = λ ms c. refl }) (codes "sys") turns
      (refl, (refl, (refl, (refl, (refl, (refl, tt))))))
