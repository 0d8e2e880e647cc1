-- ===== src/Llm/Client/Calls.antt =====
-- The tool calls of a stream, described on all its fragments at once.
use llm_wiki_engine.Prelude.{
  ℕ, ◌≡◌, refl, sym, ap, ◌∙◌, Option, none, some, List, [], ◌∷◌, ◌++◌, map, any, All-mp, contains,
  Distinct, leb, ◌==◌, nat_eq, sort_by,
}
use llm_wiki_engine.Llm.Client.{
  ToolCall, ToolDelta, Delta, Choice, Chunk, empty_entry, ToolMap, put_delta, put_deltas,
  StreamState, take_delta, take_choice, take_chunk, take_chunks, call_of, by_index,
  parse_stream_tool_response, initial_stream, or_usage,
}
use llm_wiki_engine.Llm.Client.Entries.{
  Distinct-put_deltas, get_entry-found, get_entry-put_deltas, keys-put_deltas, entries-map,
  sort_by-map, entry_of, call_for, get_entry, keys,
}

-- All fragments of tool calls of a stream, in order, and all its text.
abbrev deltas_of_delta : Option Delta → List ToolDelta
deltas_of_delta none = []
deltas_of_delta (some d) = d.tool_calls

abbrev deltas_of_choice : Option Choice → List ToolDelta
deltas_of_choice none = []
deltas_of_choice (some c) = deltas_of_delta c.delta

abbrev pub all_deltas : List Chunk → List ToolDelta
all_deltas [] = []
all_deltas (c ∷ cs) = deltas_of_choice c.choice ++ all_deltas cs

map-map :
    {A B C : Type 0} (f : A → B) (g : B → C) (xs : List A)
    → map g (map f xs) ≡ map (λ x. g (f x)) xs
map-map f g [] = refl
map-map f g (x ∷ xs) = ap (◌∷◌ (g (f x))) (map-map f g xs)

put_deltas-append :
    (xs ys : List ToolDelta) (m : ToolMap)
    → put_deltas (xs ++ ys) m ≡ put_deltas ys (put_deltas xs m)
unfolding put_deltas
put_deltas-append [] ys m = refl
put_deltas-append (d ∷ xs) ys m = put_deltas-append xs ys (put_delta d m)

take_chunk-tool_map :
    (c : Chunk) (s : StreamState)
    → (take_chunk c s).tool_map ≡ put_deltas (deltas_of_choice c.choice) s.tool_map
unfolding take_chunk take_choice take_delta put_deltas
take_chunk-tool_map c s = go c.choice
  where
    at_delta :
        (d : Option Delta) (t : StreamState)
        → (take_delta d t).tool_map ≡ put_deltas (deltas_of_delta d) t.tool_map
    at_delta none t = refl
    at_delta (some d) t = refl

    go :
        (o : Option Choice)
        → (take_choice o (record s { usage = or_usage c.usage s.usage })).tool_map
          ≡ put_deltas (deltas_of_choice o) s.tool_map
    go none = refl
    go (some o) = at_delta o.delta _

take_chunks-tool_map :
    (cs : List Chunk) (s : StreamState)
    → (take_chunks cs s).tool_map ≡ put_deltas (all_deltas cs) s.tool_map
unfolding take_chunks put_deltas
take_chunks-tool_map [] s = refl
take_chunks-tool_map (c ∷ cs) s =
    take_chunks-tool_map cs (take_chunk c s)
    ∙ ap (put_deltas (all_deltas cs)) (take_chunk-tool_map c s)
    ∙ sym (put_deltas-append (deltas_of_choice c.choice) (all_deltas cs) s.tool_map)

-- The calls that the fragments of a stream describe.
pub record Assembled (ds : List ToolDelta) (calls : List ToolCall) : Type 0 where
  pub indexes : List ℕ
  pub once : Distinct indexes
  pub known : (i : ℕ) → contains indexes i ≡ any (λ d. d.index == i) ds
  pub calls_are : calls ≡ map (call_for ds) (sort_by leb indexes)

-- However a stream is cut into chunks, and however the fragments of several calls alternate, the
-- answer has one tool call for each index that occurs, in the order of the indexes: its arguments are
-- its fragments one after the other, its id and its name the last ones given that are not empty, and
-- an id or arguments that were never given are made up.
pub parse_stream_tool_response-Assembled :
    (chunks : List Chunk)
    → Assembled (all_deltas chunks) (parse_stream_tool_response chunks).tool_calls
unfolding parse_stream_tool_response
parse_stream_tool_response-Assembled chunks = record {
  indexes = keys final;
  once = Distinct-put_deltas ds [] tt;
  known = λ i. keys-put_deltas i ds [];
  calls_are =
      ap (λ m. map call_of (sort_by by_index m))
        (take_chunks-tool_map chunks initial_stream ∙ listed)
      ∙ ap (map call_of) (sort_by-map (λ i. entry_of i empty_entry ds) (keys final))
      ∙ map-map (λ i. (i, entry_of i empty_entry ds)) call_of (sort_by leb (keys final));
}
  where
    ds : List ToolDelta
    ds = all_deltas chunks

    final : ToolMap
    final = put_deltas ds []

    listed : final ≡ map (λ i. (i, entry_of i empty_entry ds)) (keys final)
    listed =
        entries-map (λ i. entry_of i empty_entry ds) final
          (All-mp (λ p. p.1 ≡ get_entry p.0 final) (λ p. p.1 ≡ entry_of p.0 empty_entry ds) final
            (λ p k. k ∙ get_entry-put_deltas p.0 ds [])
            (get_entry-found final (Distinct-put_deltas ds [] tt)))
