-- ===== src/Store.antt =====
-- The filesystem store: src/assistant/store.
pub mod Files
pub mod Idempotency
pub mod Interface
pub mod Lock
pub mod Records
pub mod Recovery
pub mod Replay
pub mod Session
pub mod Task
