-- ===== src/Tests.antt =====
-- The theorems applied to concrete data of each part of the program.
pub mod Queue
pub mod Documents
pub mod Repair
pub mod Files
pub mod Agents
pub mod Llm
pub mod Workers
pub mod Enqueue
pub mod Wiki
pub mod Embedding
