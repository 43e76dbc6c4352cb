-- ===== src/Orchestrator.antt =====
-- The orchestrator of turns: src/assistant/core/orchestrator.
pub mod Batch
pub mod Compaction
pub mod Memory
pub mod Members
pub mod Persistence
mod Samples
pub mod Service
pub mod Settled
pub mod Turn
