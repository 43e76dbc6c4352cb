-- ===== src/Agent.antt =====
-- The agent: src/assistant/agent.
pub mod Messages
pub mod SessionRecordBuilder
