-- ===== src/Usage.antt =====
-- What the fleet spends: internal/usage.
mod Tests
pub mod Pricing
