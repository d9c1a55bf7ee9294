-- ===== src/Subscription.antt =====
-- internal/infra/adapters/shared/subscription_manager.go: what an adapter is subscribed to.
pub mod Diff
pub mod Manager
pub mod Filled
pub mod Sets
pub mod Values
pub mod Agreement
pub mod Retry
mod Examples
