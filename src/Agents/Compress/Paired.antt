-- ===== src/Agents/Compress/Paired.antt =====
-- Compression keeps the shape of a conversation that the model's interface asks for.
use llm_wiki_engine.Prelude.{
  ℕ, ◌≡◌, refl, ap, ◌∙◌, Bool, true, false, Option, none, some, List, [], ◌∷◌, ◌++◌, map, is_nil,
  ltb, if◌then◌else◌, arith,
}
use llm_wiki_engine.Text.{Text}
use llm_wiki_engine.Ingest.Writer.{text_eq}
use llm_wiki_engine.Agents.Messages.{Message, system_msg, user_msg, IsPaired}
use llm_wiki_engine.Agents.Compress.{
  keep_recent_tool_groups, should_compress, Layout, parse_layout, inject_summary_block, on_text,
  then_tail, uncompressed, history_header, tool_header, older, newer, split_groups,
  truncate_oldest_history, shorten, CompressResult, Model, Head, apply_summary, compress_history,
  apply_tool_summary, with_tail, compress_groups, compress_tail, compress_layout,
  compress_agent_context,
}
use llm_wiki_engine.Agents.Compress.Shape.{
  AllTurns, AllReplies, IsContext, parse_layout-context, tool_tail-replies, newer-AllTurns,
  truncate_oldest_history-AllTurns, shorten-paired, shorten-AllReplies, split_groups-AllReplies,
  split_groups-IsPaired,
}

-- What a step of the compression gives is a context of the same turn, with stored turns.
abbrev pub Keeps : Text → Option CompressResult → Type 0
Keeps current none = Unit
Keeps current (some r) = IsContext current r.messages × AllTurns r.persisted_history

-- The kept history and the stored history after the summary of the older turns.
abbrev HeadTurns : Option Head → Type 0
HeadTurns none = Unit
HeadTurns (some head) = AllTurns head.kept × AllTurns head.persisted

HeadTurns-on_text :
    (o : Option Text) (f : Text → Head)
    → ((t : Text) → AllTurns (f t).kept × AllTurns (f t).persisted)
    → HeadTurns (on_text o f)
HeadTurns-on_text none f h = tt
HeadTurns-on_text (some t) f h = h t

HeadTurns-if :
    (b : Bool) (x y : Option Head) → HeadTurns x → HeadTurns y → HeadTurns (if b then x else y)
HeadTurns-if true x y h k = h
HeadTurns-if false x y h k = k

Keeps-on_text :
    (u : Text) (o : Option Text) (f : Text → CompressResult)
    → ((t : Text) → IsContext u (f t).messages × AllTurns (f t).persisted_history)
    → Keeps u (on_text o f)
Keeps-on_text u none f h = tt
Keeps-on_text u (some t) f h = h t

Keeps-if :
    (u : Text) (b : Bool) (x y : Option CompressResult)
    → Keeps u x
    → Keeps u y
    → Keeps u (if b then x else y)
Keeps-if u true x y h k = h
Keeps-if u false x y h k = k

Keeps-if_of :
    (u : Text) (b : Bool) (x y : Option CompressResult)
    → (b ≡ true → Keeps u x)
    → Keeps u y
    → Keeps u (if b then x else y)
Keeps-if_of u true x y h k = h refl
Keeps-if_of u false x y h k = k

pub context :
    (system : Text) (turns : List Message) (u : Text) (tail : List Message)
    → AllTurns turns
    → AllReplies tail
    → IsPaired tail
    → IsContext u (system_msg system ∷ (turns ++ (user_msg u ∷ tail)))
context system turns u tail h k p = record {
  system = system;
  turns = turns;
  tail = tail;
  shape = refl;
  turns_are = h;
  tail_are = k;
  paired = p;
}

module _ (model : Model) where
  apply_summary-HeadTurns :
      (target : ℕ) (system : Text) (kept persisted : List Message) (summary : Option Text)
      → AllTurns kept
      → AllTurns persisted
      → HeadTurns (apply_summary model target system kept persisted summary)
  unfolding apply_summary
  apply_summary-HeadTurns target system kept persisted (some s) h k =
      HeadTurns-on_text (inject_summary_block model.expand system history_header s) _
        (λ t. (h, newer-AllTurns persisted k))
  apply_summary-HeadTurns target system kept persisted none h k =
      HeadTurns-on_text (inject_summary_block model.expand system history_header _) _ (λ t. (
        newer-AllTurns (truncate_oldest_history target persisted)
            (truncate_oldest_history-AllTurns target persisted k),
        truncate_oldest_history-AllTurns target persisted k,
      ))

  compress_history-HeadTurns :
      (target : ℕ) (system : Text) (history persisted : List Message)
      → AllTurns history
      → AllTurns persisted
      → HeadTurns (compress_history model target system history persisted)
  unfolding compress_history
  compress_history-HeadTurns target system history persisted h k =
      HeadTurns-if (is_nil (older history)) _ _ (newer-AllTurns history h, k)
        (apply_summary-HeadTurns target system (newer history) persisted _
          (newer-AllTurns history h) k)

  apply_tool_summary-Keeps :
      (head : Head) (u : Text) (from : List Message) (summary : Option Text)
      → AllTurns head.kept
      → AllTurns head.persisted
      → AllReplies from
      → IsPaired from
      → Keeps u (apply_tool_summary model head u from summary)
  unfolding apply_tool_summary
  apply_tool_summary-Keeps head u from (some s) h k r p =
      Keeps-on_text u (inject_summary_block model.expand head.system tool_header s) _
        (λ t. (context t head.kept u from h r p, k))
  apply_tool_summary-Keeps head u from none h k r p =
      Keeps-on_text u (inject_summary_block model.expand head.system tool_header _) _ (λ t. (
        context t head.kept u (map shorten from) h (shorten-AllReplies from r)
            (shorten-paired [] from ∙ p),
        k,
      ))

  compress_groups-Keeps :
      (head : Head) (u : Text) (tail : List Message)
      → AllTurns head.kept
      → AllTurns head.persisted
      → AllReplies tail
      → IsPaired tail
      → Keeps u (compress_groups model head u tail (split_groups tail))
  unfolding compress_groups
  compress_groups-Keeps head u tail h k r p =
      Keeps-if_of u (ltb keep_recent_tool_groups (split_groups tail).0) _
        (some (with_tail model head u tail))
        (λ e.
          apply_tool_summary-Keeps head u (split_groups tail).2 _ h k
            (split_groups-AllReplies tail r) (split_groups-IsPaired [] tail p (ground (arith, e))))
        (context head.system head.kept u tail h r p, k)

  compress_tail-Keeps :
      (target : ℕ) (u : Text) (tail : List Message) (head : Head)
      → AllTurns head.kept
      → AllTurns head.persisted
      → AllReplies tail
      → IsPaired tail
      → Keeps u (compress_tail model target u tail head)
  unfolding compress_tail
  compress_tail-Keeps target u tail head h k r p =
      Keeps-if u _ _ (some (with_tail model head u tail))
        (compress_groups-Keeps head u tail h k r p) (context head.system head.kept u tail h r p, k)

  then_tail-Keeps :
      (target : ℕ) (l : Layout) (head : Option Head)
      → HeadTurns head
      → AllReplies l.rest
      → IsPaired l.rest
      → Keeps l.current (then_tail model target l head)
  then_tail-Keeps target l none h r p = tt
  then_tail-Keeps target l (some head) h r p =
      rw (tool_tail-replies l.rest r p)
        (compress_tail-Keeps target l.current l.rest head h.0 h.1 r p)

  -- Whatever the summaries say and whether they fail, compressing the context of a turn, unless the
  -- replacement of an earlier summary raises, gives a context of the same turn: one system prompt,
  -- turns without tool calls, the user's message unchanged, and replies in which each tool call is
  -- answered at once and each tool result has its call. What is stored holds turns only.
  pub compress_agent_context-Keeps :
      (prompt_tokens threshold target : ℕ) (u : Text) (messages persisted : List Message)
      → IsContext u messages
      → AllTurns persisted
      → Keeps u (compress_agent_context model prompt_tokens threshold target messages persisted)
  unfolding compress_agent_context compress_layout
  compress_agent_context-Keeps prompt_tokens threshold target u messages persisted c k =
      Keeps-if u (should_compress prompt_tokens threshold) _
        (some (uncompressed model messages persisted))
        (rw layout (
          then_tail-Keeps target (record { history = c.turns; current = u; rest = c.tail })
            (compress_history model target c.system c.turns persisted)
            (compress_history-HeadTurns target c.system c.turns persisted c.turns_are k) c.tail_are
            c.paired))
        (c, k)
    where
      layout :
          parse_layout messages
          ≡ some (c.system, record { history = c.turns; current = u; rest = c.tail })
      layout =
          ap parse_layout c.shape
          ∙ parse_layout-context c.system c.turns u c.tail c.turns_are c.tail_are
