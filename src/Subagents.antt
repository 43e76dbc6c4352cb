-- ===== src/Subagents.antt =====
-- The delegation coordinator of src/assistant/subagents: it takes delegated tasks from the model's
-- tool, runs them on a backend and records their end in the task store.
pub mod Params
pub mod Limits
pub mod Enqueue
pub mod Execute
pub mod Cancel
pub mod Worker
mod Samples
