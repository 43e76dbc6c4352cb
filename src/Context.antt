-- ===== src/Context.antt =====
-- Sessions and the contexts that they belong to: src/assistant/core/session,
-- src/assistant/core/session_context and src/assistant/store/filesystem/metadata.py.
pub mod Metadata
pub mod Overrides
pub mod Sessions
mod Samples
