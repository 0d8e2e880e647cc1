-- ===== src/Agents/Turn/Contexts.antt =====
-- What the model is asked with in a turn.
use llm_wiki_engine.Prelude.{
  ℕ, zero, suc, ◌+◌, ◌≡◌, refl, ap, ◌∙◌, Bool, true, false, Option, none, some, List, [], ◌∷◌, ◌++◌,
  leb, if◌then◌else◌, Bool-cases, Option-cases, inl, inr,
}
use llm_wiki_engine.Text.{Text, text_beq_iff}
use llm_wiki_engine.Ingest.Writer.{text_eq}
use llm_wiki_engine.Llm.Client.{LlmResponse}
use llm_wiki_engine.Agents.Messages.{ToolCall, Message, assistant_msg, tool_msg, call_ids}
use llm_wiki_engine.Agents.Compress.{CompressResult}
use llm_wiki_engine.Agents.Compress.Shape.{AllTurns, IsOpen, IsContext, IsOpen-reply}
use llm_wiki_engine.Agents.Compress.Paired.{Keeps, context, compress_agent_context-Keeps}
use llm_wiki_engine.Agents.Turn.{
  compressing, compressed_event, Ending, cancelled, TurnState, Settings, World, emit, reject_msg,
  unless_cancelled, reject_call, record_result, run_tool, do_call, run_calls, finish_turn, follow,
  take_compressed, after_compression, compress_step, on_response, fallback, rounds, initial,
  run_agent_turn,
}

-- A state of the turn of a user's message in which the calls of the given ids wait.
abbrev Waits : Text → List Text → TurnState → Type 0
Waits u ids s = IsOpen u ids s.messages × AllTurns s.persisted_history

-- Two models, with and without tools, that answer alike on contexts of the message.
pub record AgreeOn (u : Text) (f g : ℕ → List Message → Option LlmResponse)
    (h k : List Message → Option (List Text)) : Type 0 where
  pub with_tools : (n : ℕ) (ms : List Message) → IsContext u ms → f n ms ≡ g n ms
  pub without_tools : (ms : List Message) → IsContext u ms → h ms ≡ k ms

abbrev pub with_models :
    World → (ℕ → List Message → Option LlmResponse) → (List Message → Option (List Text)) → World
with_models world f h = record world { complete_with_tools = f; llm_stream = h }

module _ (u : Text) (world : World) (settings : Settings)
    (f g : ℕ → List Message → Option LlmResponse) (h k : List Message → Option (List Text))
    (agree : AgreeOn u f g h k) where
  abbrev W : World
  W = with_models world f h

  abbrev V : World
  V = with_models world g k

  -- Two ways to go on that agree on states of the turn.
  abbrev Same :
      List Text → (TurnState → Ending × TurnState) → (TurnState → Ending × TurnState) → Type 0
  Same ids go there = (s : TurnState) → Waits u ids s → go s ≡ there s

  unless_cancelled-Same :
      (ids : List Text) (go there : TurnState → Ending × TurnState)
      → Same ids go there
      → Same ids (unless_cancelled W settings go) (unless_cancelled V settings there)
  unfolding unless_cancelled
  unless_cancelled-Same ids go there e s c =
      ap
        (λ r.
          if world.should_cancel s.tests then (cancelled, record s { tests = suc s.tests }) else r)
        (e (record s { tests = suc s.tests }) c)

  -- The answer of the first waiting call.
  answer :
      (call : ToolCall) (ids : List Text) (t : Text) (ms : List Message)
      → IsOpen u (call.id ∷ ids) ms
      → IsOpen u ids (ms ++ tool_msg call.id t ∷ [])
  answer call ids t ms c =
      IsOpen-reply u (call.id ∷ ids) ids ms (tool_msg call.id t) c refl
        (rw ((text_beq_iff call.id call.id).1 refl) refl)

  do_call-Same :
      (call : ToolCall) (ids : List Text) (go there : TurnState → Ending × TurnState)
      → Same ids go there
      → Same (call.id ∷ ids) (do_call W settings call go) (do_call V settings call there)
  unfolding do_call run_tool reject_call record_result
  do_call-Same call ids go there e s c =
      elim (Bool-cases (leb settings.max_tool_calls s.tool_call_count)) [
        | inl q ↦ rw (q, do_call) (e _ (answer call ids reject_msg s.messages c.0, c.1))
        | inr q ↦
            elim (Option-cases
              (world.execute_tool s.tests call.name (world.loads call.arguments))) [
                | inl r ↦ rw (q, r, do_call, run_tool) refl
                | inr (result, r) ↦
                    rw (q, r, do_call, run_tool)
                      (e _ (answer call ids result.text s.messages c.0, c.1))
              ]
      ]

  run_calls-Same :
      (calls : List ToolCall) (go there : TurnState → Ending × TurnState)
      → Same [] go there
      → Same (call_ids calls) (run_calls W settings calls go) (run_calls V settings calls there)
  unfolding run_calls
  run_calls-Same [] go there e = e
  run_calls-Same (call ∷ calls) go there e =
      unless_cancelled-Same (call_ids (call ∷ calls)) _ _
        (do_call-Same call (call_ids calls) _ _ (run_calls-Same calls go there e))

  follow-Same :
      (go there : TurnState → Ending × TurnState) (content : Option Text) (calls : List ToolCall)
      → Same [] go there
      → Same [] (follow W settings go content calls) (follow V settings there content calls)
  unfolding follow finish_turn
  follow-Same go there content [] e s c = refl
  follow-Same go there content (call ∷ calls) e s c = run_calls-Same (call ∷ calls) go there e _ (
    IsOpen-reply u [] (call_ids (call ∷ calls)) s.messages (assistant_msg content (call ∷ calls))
        c.0 refl refl,
    c.1,
  )

  Waits-if :
      (b : Bool) (x y : TurnState) → Waits u [] x → Waits u [] y → Waits u [] (if b then x else y)
  Waits-if true x y c d = c
  Waits-if false x y c d = d

  take_compressed-Waits :
      (r : CompressResult) (s : TurnState)
      → Waits u [] s
      → IsContext u r.messages × AllTurns r.persisted_history
      → Waits u [] (take_compressed r s)
  unfolding take_compressed
  take_compressed-Waits r s c d =
      Waits-if r.compressed
        (record s {
          messages = r.messages;
          persisted_history = r.persisted_history;
          context_compressed = true;
        })
        s d c

  after_compression-Same :
      (go there : TurnState → Ending × TurnState) (resp : LlmResponse) (needs : Bool)
      (r : Option CompressResult)
      → Same [] go there
      → Keeps u r
      → Same []
          (after_compression W settings go resp needs r)
          (after_compression V settings there resp needs r)
  unfolding after_compression
  after_compression-Same go there resp needs none e d s c = refl
  after_compression-Same go there resp needs (some r) e d s c =
      unless_cancelled-Same [] _ _
        (λ t i. follow-Same go there resp.content resp.tool_calls e _ (
          take_compressed-Waits r (if needs then emit compressed_event t else t)
            (Waits-if needs (emit compressed_event t) t i i) d))
        s c

  on_response-Same :
      (go there : TurnState → Ending × TurnState) (resp : Option LlmResponse)
      → Same [] go there
      → Same [] (on_response W settings go resp) (on_response V settings there resp)
  unfolding on_response compress_step
  on_response-Same go there none e s c = refl
  on_response-Same go there (some resp) e s c =
      unless_cancelled-Same [] _ _
        (λ t i.
          after_compression-Same go there resp _ _ e
            (compress_agent_context-Keeps world.model _ settings.threshold settings.target u
              t.messages t.persisted_history i.0 i.1)
            _ (Waits-if _ (emit compressing t) t i i))
        s c

  rounds-Same : (n : ℕ) → Same [] (rounds W settings n) (rounds V settings n)
  unfolding rounds fallback
  rounds-Same zero s c = ap (λ o. fallback W settings o s) (agree.without_tools s.messages c.0)
  rounds-Same (suc n) s c =
      unless_cancelled-Same [] _ _
        (λ t i.
          ap (λ o. on_response W settings (rounds W settings n) o t)
            (agree.with_tools t.tests t.messages i.0)
          ∙ on_response-Same (rounds W settings n) (rounds V settings n) (g t.tests t.messages)
              (rounds-Same n) t i)
        s c

  -- In a turn whose history holds no tool calls, the models are only ever asked with contexts of the
  -- turn: one system prompt, turns, the user's message, and replies in which every tool call has its
  -- answer at once. For if two models agree on those messages, the whole turn is the same with either,
  -- whatever they say of others; rejected calls, compression and the fallback included.
  pub run_agent_turn-contexts :
      (full_system : Text) (history : List Message)
      → AllTurns history
      → run_agent_turn (with_models world f h) settings full_system u history
        ≡ run_agent_turn (with_models world g k) settings full_system u history
  unfolding run_agent_turn
  run_agent_turn-contexts full_system history turns =
      rounds-Same (settings.max_tool_calls + 2) (initial W settings full_system u history)
        (context full_system history u [] turns tt refl, turns)
