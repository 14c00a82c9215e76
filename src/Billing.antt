-- ===== src/Billing.antt =====
-- internal/billing: plans, quotas, metering and webhooks.
pub mod Plans
pub mod Config
pub mod Interface
pub mod Webhooks
pub mod Memory
pub mod Metering
mod Tests
