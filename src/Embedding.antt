-- ===== src/Embedding.antt =====
-- app/embedding
pub mod Chunker
pub mod Service
