-- ===== src/Tests/Llm.antt =====
-- app/llm/client.py on short streams and failing calls.
use llm_wiki_engine.Prelude.{ℕ, suc, Option, none, some, List, [], ◌∷◌}
use llm_wiki_engine.Text.{Text, codes}
use llm_wiki_engine.Llm.Client.{Chunk, parse_stream_tool_response}
use llm_wiki_engine.Llm.Client.Calls.{all_deltas, Assembled, parse_stream_tool_response-Assembled}
use llm_wiki_engine.Llm.Retry.{Result, ok, failed, Ended, with_llm_retries, with_llm_retries-Ended}

abbrev fragment : ℕ → Option Text → Option Text → Chunk
fragment index id arguments = record {
  usage = none;
  choice = some (record {
    finish_reason = none;
    delta = some (record {
      content = none;
      tool_calls = record { index = index; id = id; name = none; arguments = arguments } ∷ [];
    });
  });
}

-- Two calls whose fragments alternate, the second one first.
abbrev stream : List Chunk
stream =
    fragment 1 (some (codes "b")) (some (codes "{"))
    ∷ fragment 0 none none
    ∷ fragment 1 none (some (codes "}"))
    ∷ []

parse_stream_tool_response-Assembled_example :
    Assembled (all_deltas stream) (parse_stream_tool_response stream).tool_calls
parse_stream_tool_response-Assembled_example = parse_stream_tool_response-Assembled stream

-- A call that times out twice.
abbrev flaky : ℕ → Result ℕ
flaky (suc (suc (suc n))) = ok 7
flaky n = failed (record { name = codes "Timeout"; message = [] })

with_llm_retries-Ended_example : Ended (λ t. t) flaky 1 (with_llm_retries (λ t. t) flaky)
with_llm_retries-Ended_example = with_llm_retries-Ended (λ t. t) flaky
