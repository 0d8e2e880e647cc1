-- ===== src/Agents.antt =====
-- app/agents: the tool-calling turn of an agent and the compression of its context.
pub mod Messages
pub mod Compress
pub mod Turn
