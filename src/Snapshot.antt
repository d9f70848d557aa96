-- ===== src/Snapshot.antt =====
-- Snapshots of containers: internal/runtime/snapshot.
mod Tests
pub mod Retention
