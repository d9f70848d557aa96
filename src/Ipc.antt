-- ===== src/Ipc.antt =====
-- Messages between agents and humans: internal/ipc.
mod Tests
pub mod Table
pub mod Letters
pub mod Send
pub mod Delivery
