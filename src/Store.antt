-- ===== src/Store.antt =====
-- The control plane's store: internal/api/store.
pub mod Types
pub mod State
pub mod Index
pub mod Accounts
pub mod Names
pub mod Usage
pub mod Tunnels
pub mod Billing
pub mod Consistent
pub mod History
mod Tests
