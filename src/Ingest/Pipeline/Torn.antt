-- ===== src/Ingest/Pipeline/Torn.antt =====
-- app/ingest/pipeline.py: a job whose checkpoint is gone although its row counts a step.
use llm_wiki_engine.Prelude.{suc}
use llm_wiki_engine.Text.{Text}
use llm_wiki_engine.Ingest.Pipeline.{State}

-- The state after one more pause check.
abbrev pub checked : State → State
checked s = record s { checks = suc s.checks }
