-- ===== src/Gateway.antt =====
-- The capability gateway: internal/gateway.
pub mod Approvals
pub mod Risk
pub mod Grants
pub mod Registry
pub mod Hub
pub mod Offers
pub mod Calls
pub mod Native
pub mod Powers
pub mod Mailbox
pub mod Tasks
mod Tests
mod CallTests
mod NativeTests
