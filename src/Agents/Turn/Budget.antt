-- ===== src/Agents/Turn/Budget.antt =====
-- The budget of tool calls.
use llm_wiki_engine.Prelude.{
  ℕ, zero, suc, ◌+◌, ◌≤◌, ◌≡◌, refl, ◌∙◌, Bool, true, false, Option, none, some, List, [], ◌∷◌,
  ◌++◌, leb, if◌then◌else◌, Bool-cases, Option-cases, inl, inr, arith,
}
use llm_wiki_engine.Text.{Text, is_empty}
use llm_wiki_engine.Llm.Client.{LlmResponse}
use llm_wiki_engine.Agents.Messages.{ToolCall, Message}
use llm_wiki_engine.Agents.Compress.{CompressResult}
use llm_wiki_engine.Agents.Turn.{
  ToolResult, ToolTrace, compressing, Ending, TurnState, Settings, World, emit, unless_cancelled,
  reject_call, record_result, run_tool, do_call, run_calls, finish_turn, follow, take_compressed,
  after_compression, compress_step, on_response, fallback, rounds, initial, run_agent_turn,
}

abbrev pub was_run : Option ToolResult → ℕ
was_run none = 0
was_run (some r) = 1

-- The number of calls that a tool executed.
abbrev pub executed : List ToolTrace → ℕ
executed [] = 0
executed (t ∷ ts) = was_run t.result + executed ts

executed-append : (xs ys : List ToolTrace) → executed (xs ++ ys) ≡ executed xs + executed ys
executed-append [] ys = omega arith
executed-append (t ∷ ts) ys = omega (arith, executed-append ts ys)

-- The traces hold as many executed calls as were counted, and not more than allowed.
abbrev InBudget : ℕ → TurnState → Type 0
InBudget limit s = (executed s.traces ≡ s.tool_call_count) × (s.tool_call_count ≤ limit)

module _ (world : World) (settings : Settings) where
  abbrev Ok : Ending × TurnState → Type 0
  Ok r = InBudget settings.max_tool_calls r.1

  abbrev Good : (TurnState → Ending × TurnState) → Type 0
  Good go = (s : TurnState) → InBudget settings.max_tool_calls s → Ok (go s)

  Ok-if : (b : Bool) (x y : Ending × TurnState) → Ok x → Ok y → Ok (if b then x else y)
  Ok-if true x y h k = h
  Ok-if false x y h k = k

  unless_cancelled-Good :
      (go : TurnState → Ending × TurnState) → Good go → Good (unless_cancelled world settings go)
  unfolding unless_cancelled
  unless_cancelled-Good go g s h = Ok-if (world.should_cancel s.tests) _ _ h (g _ h)

  run_tool-Good :
      (call : ToolCall) (next : TurnState → Ending × TurnState)
      → Good next
      → (s : TurnState) → InBudget settings.max_tool_calls s
      → leb settings.max_tool_calls s.tool_call_count ≡ false
      → Ok (run_tool world settings call next s)
  unfolding run_tool record_result
  run_tool-Good call next g s h e =
      elim (Option-cases (world.execute_tool s.tests call.name (world.loads call.arguments))) [
        | inl q ↦ rw (q, run_tool) h
        | inr (r, q) ↦
            rw (q, run_tool)
              (g _ (executed-append s.traces _ ∙ omega (arith, h.0), ground (arith, e)))
      ]

  do_call-Good :
      (call : ToolCall) (next : TurnState → Ending × TurnState)
      → Good next
      → Good (do_call world settings call next)
  unfolding do_call reject_call
  do_call-Good call next g s h = elim (Bool-cases (leb settings.max_tool_calls s.tool_call_count)) [
    | inl e ↦ rw (e, do_call) (g _ (executed-append s.traces _ ∙ omega (arith, h.0), h.1))
    | inr e ↦ rw (e, do_call) (run_tool-Good call next g s h e)
  ]

  run_calls-Good :
      (calls : List ToolCall) (next : TurnState → Ending × TurnState)
      → Good next
      → Good (run_calls world settings calls next)
  unfolding run_calls
  run_calls-Good [] next g = g
  run_calls-Good (call ∷ calls) next g =
      unless_cancelled-Good _ (do_call-Good call _ (run_calls-Good calls next g))

  finish_turn-Good : (content : Option Text) → Good (finish_turn world settings content)
  unfolding finish_turn
  finish_turn-Good none s h = h
  finish_turn-Good (some t) s h = Ok-if (is_empty t) _ _ h h

  follow-Good :
      (next : TurnState → Ending × TurnState) (content : Option Text) (calls : List ToolCall)
      → Good next
      → Good (follow world settings next content calls)
  unfolding follow
  follow-Good next content [] g s h = finish_turn-Good content s h
  follow-Good next content (call ∷ calls) g s h = run_calls-Good (call ∷ calls) next g _ h

  take_compressed-InBudget :
      (r : CompressResult) (s : TurnState)
      → InBudget settings.max_tool_calls s
      → InBudget settings.max_tool_calls (take_compressed r s)
  unfolding take_compressed
  take_compressed-InBudget r s h = go r.compressed
    where
      go :
          (b : Bool)
          → InBudget settings.max_tool_calls (
              if b
              then record s {
                messages = r.messages;
                persisted_history = r.persisted_history;
                context_compressed = true;
              }
              else s)
      go true = h
      go false = h

  InBudget-if :
      (b : Bool) (x y : TurnState)
      → InBudget settings.max_tool_calls x
      → InBudget settings.max_tool_calls y
      → InBudget settings.max_tool_calls (if b then x else y)
  InBudget-if true x y h k = h
  InBudget-if false x y h k = k

  after_compression-Good :
      (next : TurnState → Ending × TurnState) (resp : LlmResponse) (needs : Bool)
      (r : Option CompressResult)
      → Good next
      → Good (after_compression world settings next resp needs r)
  unfolding after_compression
  after_compression-Good next resp needs none g s h = h
  after_compression-Good next resp needs (some r) g s h =
      unless_cancelled-Good _
        (λ t i.
          follow-Good next resp.content resp.tool_calls g _
            (take_compressed-InBudget r _ (InBudget-if needs _ t i i)))
        s h

  on_response-Good :
      (next : TurnState → Ending × TurnState) (resp : Option LlmResponse)
      → Good next
      → Good (on_response world settings next resp)
  unfolding on_response compress_step
  on_response-Good next none g s h = h
  on_response-Good next (some resp) g s h =
      unless_cancelled-Good _
        (λ t i. after_compression-Good next resp _ _ g _ (InBudget-if _ (emit compressing t) t i i))
        s h

  fallback-Good : (tokens : Option (List Text)) → Good (fallback world settings tokens)
  unfolding fallback
  fallback-Good none s h = h
  fallback-Good (some tokens) s h = h

  rounds-Good : (n : ℕ) → Good (rounds world settings n)
  unfolding rounds
  rounds-Good zero s h = fallback-Good (world.llm_stream s.messages) s h
  rounds-Good (suc n) s h =
      unless_cancelled-Good _
        (λ t i.
          on_response-Good (rounds world settings n) (world.complete_with_tools t.tests t.messages)
            (rounds-Good n) t i)
        s h

  -- A turn executes at most `max_tool_calls` tool calls, however many the model asks for and however
  -- the turn ends: the traces hold exactly as many executed calls as were counted.
  pub run_agent_turn-InBudget :
      (full_system message : Text) (history : List Message)
      → let s = (run_agent_turn world settings full_system message history).1 in
        (executed s.traces ≡ s.tool_call_count) × (executed s.traces ≤ settings.max_tool_calls)
  unfolding run_agent_turn
  run_agent_turn-InBudget full_system message history =
      let h =
        rounds-Good (settings.max_tool_calls + 2)
          (initial world settings full_system message history) (refl, omega arith) in
      (h.0, omega (arith, h.0, h.1))
