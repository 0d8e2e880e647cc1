-- ===== src/Llm/Client.antt =====
-- app/llm/client.py: the answers of the model with tool calls, in one piece or from a stream.
pub mod Entries
pub mod Calls
use llm_wiki_engine.Prelude.{
  ℕ, zero, suc, ◌+◌, ◌/◌, ◌%◌, Bool, true, false, Option, none, some, List, [], ◌∷◌, ◌++◌, map, leb,
  ltb, ◌==◌, nat_eq, if◌then◌else◌, sort_by,
}
use llm_wiki_engine.Text.{Text, codes}

-- `ToolCallRequest`
pub record ToolCall : Type 0 where
  pub id : Text
  pub name : Text
  pub arguments : Text

pub record TokenUsage : Type 0 where
  pub prompt_tokens : ℕ
  pub completion_tokens : ℕ
  pub total_tokens : ℕ

pub record LlmResponse : Type 0 where
  pub content : Option Text
  pub tool_calls : List ToolCall
  pub finish_reason : Option Text
  pub usage : Option TokenUsage

-- One fragment of a tool call in a stream; a missing index is 0.
pub record ToolDelta : Type 0 where
  pub index : ℕ
  pub id : Option Text
  pub name : Option Text
  pub arguments : Option Text

pub record Delta : Type 0 where
  pub content : Option Text
  pub tool_calls : List ToolDelta

pub record Choice : Type 0 where
  pub finish_reason : Option Text
  pub delta : Option Delta

-- A chunk of the stream, with `choices[0]`.
pub record Chunk : Type 0 where
  pub usage : Option TokenUsage
  pub choice : Option Choice

-- The entry of `tool_map` for an index.
pub record Entry : Type 0 where
  pub id : Text
  pub name : Text
  pub arguments : Text

abbrev pub empty_entry : Entry
empty_entry = record { id = []; name = []; arguments = [] }

abbrev pub ToolMap : Type 0
ToolMap = List (ℕ × Entry)

-- if value: old = value
abbrev pub replaced : Option Text → Text → Text
replaced none old = old
replaced (some []) old = old
replaced (some (c ∷ s)) old = c ∷ s

-- if value: old += value
abbrev pub extended : Option Text → Text → Text
extended none old = old
extended (some s) old = old ++ s

abbrev pub add_delta : ToolDelta → Entry → Entry
add_delta d entry = record {
  id = replaced d.id entry.id;
  name = replaced d.name entry.name;
  arguments = extended d.arguments entry.arguments;
}

-- `tool_map.setdefault` and the changes of the entry.
unfoldable pub put_delta : ToolDelta → ToolMap → ToolMap
put_delta d [] = (d.index, add_delta d empty_entry) ∷ []
put_delta d ((i, entry) ∷ entries) =
    let rest = put_delta d entries in
    if i == d.index then (i, add_delta d entry) ∷ entries else (i, entry) ∷ rest

unfoldable pub put_deltas : List ToolDelta → ToolMap → ToolMap
put_deltas [] entries = entries
put_deltas (d ∷ ds) entries = put_deltas ds (put_delta d entries)

-- The variables of `_parse_stream_tool_response`; the parts of the content are joined.
pub record StreamState : Type 0 where
  pub content : Text
  pub finish_reason : Option Text
  pub usage : Option TokenUsage
  pub tool_map : ToolMap

-- A value that is kept unless the chunk has another; an empty text counts as none.
abbrev pub or_text : Option Text → Option Text → Option Text
or_text none old = old
or_text (some []) old = old
or_text (some (c ∷ s)) old = some (c ∷ s)

abbrev pub or_usage : Option TokenUsage → Option TokenUsage → Option TokenUsage
or_usage none old = old
or_usage (some u) old = some u

unfoldable pub take_delta : Option Delta → StreamState → StreamState
take_delta none s = s
take_delta (some d) s = record s {
  content = extended d.content s.content;
  tool_map = put_deltas d.tool_calls s.tool_map;
}

unfoldable pub take_choice : Option Choice → StreamState → StreamState
take_choice none s = s
take_choice (some c) s =
    take_delta c.delta (record s { finish_reason = or_text c.finish_reason s.finish_reason })

unfoldable pub take_chunk : Chunk → StreamState → StreamState
take_chunk chunk s = take_choice chunk.choice (record s { usage = or_usage chunk.usage s.usage })

-- The loop over the chunks, up to the end of the stream.
unfoldable pub take_chunks : List Chunk → StreamState → StreamState
take_chunks [] s = s
take_chunks (c ∷ cs) s = take_chunks cs (take_chunk c s)

-- x or y
abbrev pub or_else : Text → Text → Text
or_else [] y = y
or_else (c ∷ s) y = c ∷ s

-- The decimal digits of a number, the last one first, and its text. A number has at most as many
-- digits as its value, and one.
unfoldable pub digits : ℕ → ℕ → Text
digits zero n = []
digits (suc fuel) n =
    let rest = digits fuel (n / 10) in
    if ltb n 10 then (b'0' + n) ∷ [] else rest ++ (b'0' + n % 10) ∷ []

unfoldable pub str : ℕ → Text
unfolding digits
str n = digits (suc n) n

unfoldable pub call_of : ℕ × Entry → ToolCall
unfolding str
call_of (i, entry) = record {
  id = or_else entry.id (codes "stream-tool-" ++ str i);
  name = entry.name;
  arguments = or_else entry.arguments (codes "{}");
}

abbrev pub by_index : ℕ × Entry → ℕ × Entry → Bool
by_index a b = leb a.0 b.0

abbrev pub text_or_none : Text → Option Text
text_or_none [] = none
text_or_none (c ∷ s) = some (c ∷ s)

abbrev pub initial_stream : StreamState
initial_stream = record { content = []; finish_reason = none; usage = none; tool_map = [] }

abbrev pub response_of : StreamState → LlmResponse
response_of s = record {
  content = text_or_none s.content;
  tool_calls = map call_of (sort_by by_index s.tool_map);
  finish_reason = s.finish_reason;
  usage = s.usage;
}

-- A stream that ends without an exception.
unfoldable pub parse_stream_tool_response : List Chunk → LlmResponse
unfolding take_chunks sort_by
parse_stream_tool_response chunks = response_of (take_chunks chunks initial_stream)
