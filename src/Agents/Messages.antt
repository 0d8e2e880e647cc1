-- ===== src/Agents/Messages.antt =====
-- The messages that app/agents/orchestrator.py sends to the model, and their shape.
use llm_wiki_engine.Prelude.{
  Bool, true, false, Option, none, some, List, [], ◌∷◌, map, ◌==◌, ◌≡◌, if◌then◌else◌,
}
use llm_wiki_engine.Text.{Text}
use llm_wiki_engine.Ingest.Writer.{text_eq}
pub use llm_wiki_engine.Llm.Client.{ToolCall}

-- The dicts of `messages`, by their role: an assistant's may have tool calls, a tool's has the id of
-- the call that it answers.
pub data Message : Type 0 where
  system_msg user_msg : Text → Message
  assistant_msg : Option Text → List ToolCall → Message
  tool_msg : Text → Text → Message

-- What is stored of a conversation: what the user and the assistant said.
abbrev pub is_turn : Message → Bool
is_turn (user_msg t) = true
is_turn (assistant_msg t []) = true
is_turn _ = false

-- The ids that the next messages must answer.
abbrev pub call_ids : List ToolCall → List Text
call_ids calls = map (λ c. c.id) calls

-- The ids that stay open after a message, or none if it may not stand there: while ids are open, only
-- the answer to the first of them may come.
abbrev pub next_open : List Text → Message → Option (List Text)
next_open [] (tool_msg id t) = none
next_open [] (assistant_msg t calls) = some (call_ids calls)
next_open [] (system_msg t) = some []
next_open [] (user_msg t) = some []
next_open (i ∷ is) (tool_msg id t) = if i == id then some is else none
next_open (i ∷ is) m = none

-- The ids that stay open after some messages.
abbrev pub open_after : List Text → List Message → Option (List Text)
open_after open_ids [] = some open_ids
open_after open_ids (m ∷ ms) = elim (next_open open_ids m) [
  | none ↦ none
  | some rest ↦ open_after rest ms
]

-- Every tool call is answered at once, in order, and every answer has its call.
abbrev pub IsPaired : List Message → Type 0
IsPaired ms = open_after [] ms ≡ some []
