-- ===== src/Context.antt =====
-- The context engine: internal/contextengine.
pub mod Store
pub mod Engine
pub mod Proposals
pub mod Grants
mod Tests
