-- ===== src/Stack.antt =====
-- Stacked containers: internal/stack.
mod Tests
pub mod Forest
pub mod Sync
