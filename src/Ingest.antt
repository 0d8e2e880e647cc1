-- ===== src/Ingest.antt =====
-- app/ingest: the compilation of source documents into wiki pages.
pub mod Queue
pub mod Parser
pub mod Writer
pub mod Pipeline
pub mod Files
pub mod EnqueueTasks
pub mod EnqueueService
