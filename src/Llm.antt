-- ===== src/Llm.antt =====
-- app/llm: the client of the language model.
pub mod Client
pub mod Retry
